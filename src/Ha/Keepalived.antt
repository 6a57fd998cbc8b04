-- ===== src/Ha/Keepalived.antt =====
-- internal/ha/keepalived.go: the parameters of keepalived.conf, with their defaults. The template
-- that prints the resolved view is left out.
use phantomcore.Base.{
  zero, suc, ◌≡◌, Bool, true, false, ◌||◌, arith, ℤ, pos, negsuc, ◌≤ℤ◌, ltb_ℤ, Text, text,
  trim_space, is_empty, if◌then◌else◌,
}
use phantomcore.Ha.Configuration.{Role, primary, backup, other}

pub data VrrpState : Type 0 where
  master backup_state : VrrpState

-- `KeepalivedParams`
pub record Params : Type 0 where
  pub role : Role
  pub interface : Text
  pub vip : Text
  pub instance_name : Text
  pub router_id : ℤ
  pub advert_int : ℤ
  pub auth_pass : Text
  pub priority : ℤ

-- `keepalivedView`
pub record View : Type 0 where
  pub instance_name : Text
  pub vrrp_state : VrrpState
  pub interface : Text
  pub router_id : ℤ
  pub priority : ℤ
  pub advert_int : ℤ
  pub auth_pass : Text
  pub vip : Text

pub data Refusal : Type 0 where
  invalid_role interface_required vip_required router_id_range : Refusal

pub data Resolved : Type 0 where
  view : View → Resolved
  refused : Refusal → Resolved

abbrev pub is_zero : ℤ → Bool
is_zero (pos n) = elim n [ zero ↦ true | suc _ ↦ false ]
is_zero (negsuc n) = false

abbrev text_or : Text → Text → Text
text_or s d = if is_empty s then d else s

abbrev int_or : ℤ → ℤ → ℤ
int_or n d = if is_zero n then d else n

-- The end of `resolve`, with the role's state and default priority found.
resolve_as : VrrpState → ℤ → Params → Resolved
resolve_as vrrp_state default_priority p =
    if is_empty (trim_space p.interface)
    then refused interface_required
    else if is_empty (trim_space p.vip)
    then refused vip_required
    else let router_id = int_or p.router_id (pos 51) in
      if ltb_ℤ router_id (pos 0) || ltb_ℤ (pos 255) router_id
      then refused router_id_range
      else view (record {
        instance_name = text_or p.instance_name (text "VI_HYDRA");
        vrrp_state = vrrp_state;
        interface = trim_space p.interface;
        router_id = router_id;
        priority = int_or p.priority default_priority;
        advert_int = int_or p.advert_int (pos 1);
        auth_pass = text_or p.auth_pass (text "hydradns");
        vip = trim_space p.vip;
      })

-- `resolve`
unfoldable pub resolve : Params → Resolved
unfolding resolve_as
resolve p = elim p.role [
  | primary ↦ resolve_as master (pos 200) p
  | backup ↦ resolve_as backup_state (pos 100) p
  | other _ ↦ refused invalid_role
]

-- What the template may rely on.
pub record IsRenderable (v : View) : Type 0 where
  pub named : is_empty v.instance_name ≡ false
  pub bound : is_empty v.interface ≡ false
  pub addressed : is_empty v.vip ≡ false
  pub router_low : pos 1 ≤ℤ v.router_id
  pub router_high : v.router_id ≤ℤ pos 255
  pub authenticated : is_empty v.auth_pass ≡ false
  pub prioritised : is_zero v.priority ≡ false
  pub advertised : is_zero v.advert_int ≡ false

-- Every view that `resolve` returns is complete: no name, interface, address or password is
-- empty, the router id lies in 1 to 255, and priority and interval are not zero.
pub resolve-IsRenderable : (p : Params) (v : View) → resolve p ≡ view v → IsRenderable v
unfolding resolve
resolve-IsRenderable p v h = ground arith
