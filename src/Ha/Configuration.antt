-- ===== src/Ha/Configuration.antt =====
-- internal/ha/config.go: the configuration, its defaults and its validation. `FailureThreshold`
-- and `RecoveryThreshold` are positive after `withDefaults`, and numbers from there on.
use phantomcore.Base.{
  ℕ, zero, suc, Bool, true, false, ◌||◌, Option, none, some, ℤ, pos, negsuc, Text, text, same_text,
  trim_space, to_lower, is_empty, if◌then◌else◌, text_discrete,
}

pub data Role : Type 0 where
  primary backup : Role
  other : Text → Role

pub data Error : Type 0 where
  invalid_role peer_addr_required : Error

-- What the environment or a caller gives.
pub record Settings : Type 0 where
  pub enabled : Bool
  pub role : Role
  pub peer_addr : Text
  pub vip : Text
  pub check_interval : ℤ
  pub failure_threshold : ℤ
  pub recovery_threshold : ℤ
  pub dial_timeout : ℤ

-- The configuration with its tunables filled in; times in nanoseconds.
pub record Config : Type 0 where
  pub enabled : Bool
  pub role : Role
  pub peer_addr : Text
  pub vip : Text
  pub check_interval : ℕ
  pub failure_threshold : ℕ
  pub recovery_threshold : ℕ
  pub dial_timeout : ℕ

abbrev pub default_check_interval : ℕ
default_check_interval = 2_000_000_000

abbrev pub default_failure_threshold : ℕ
default_failure_threshold = 3

abbrev pub default_recovery_threshold : ℕ
default_recovery_threshold = 3

abbrev pub default_dial_timeout : ℕ
default_dial_timeout = 1_000_000_000

-- `if v <= 0 { v = d }`
abbrev pub positive_or : ℤ → ℕ → ℕ
positive_or (pos zero) d = d
positive_or (pos (suc n)) d = suc n
positive_or (negsuc n) d = d

-- `withDefaults`
unfoldable pub with_defaults : Settings → Config
with_defaults c = record {
  enabled = c.enabled;
  role = c.role;
  peer_addr = c.peer_addr;
  vip = c.vip;
  check_interval = positive_or c.check_interval default_check_interval;
  failure_threshold = positive_or c.failure_threshold default_failure_threshold;
  recovery_threshold = positive_or c.recovery_threshold default_recovery_threshold;
  dial_timeout = positive_or c.dial_timeout default_dial_timeout;
}

abbrev pub is_known : Role → Bool
is_known primary = true
is_known backup = true
is_known (other _) = false

-- `Validate`: `none` is a nil error.
unfoldable pub validate : Config → Option Error
validate c =
    if c.enabled
    then (if is_known c.role
        then (if is_empty (trim_space c.peer_addr) then some peer_addr_required else none)
        else some invalid_role)
    else none

-- `Role(s)`
unfoldable pub role_of : Text → Role
unfolding text_discrete
role_of s =
    if same_text s (text "primary")
    then primary
    else if same_text s (text "backup")
    then backup
    else other s

-- strconv.ParseBool, with its error read as false
unfoldable pub parse_bool : Text → Bool
unfolding text_discrete
parse_bool s =
    let t = trim_space s in
    same_text t (text "1")
    || (same_text t (text "t")
        || (same_text t (text "T")
            || (same_text t (text "TRUE")
                || (same_text t (text "true") || same_text t (text "True")))))

-- `ConfigFromEnv`, from the values of HA_ENABLED, HA_ROLE, HA_PEER_ADDR and HA_VIP
unfoldable pub config_from_env : Text → Text → Text → Text → Config
unfolding parse_bool role_of with_defaults
config_from_env enabled role peer_addr vip = with_defaults (record {
  enabled = parse_bool enabled;
  role = role_of (to_lower (trim_space role));
  peer_addr = trim_space peer_addr;
  vip = trim_space vip;
  check_interval = pos 0;
  failure_threshold = pos 0;
  recovery_threshold = pos 0;
  dial_timeout = pos 0;
})
