-- ===== src/Policy/Loader.antt =====
-- internal/policy/loader.go: the validation of policies. Reading the file and its JSON is left out.
use phantomcore.Base.{
  Bool, true, false, ◌||◌, Option, none, some, List, [], ◌∷◌, map, Text, text, same_text, is_empty,
  to_upper, trim_space, if◌then◌else◌,
}
use phantomcore.Policy.Types.{Policy, Platform, normalize_domain}
use phantomcore.Policy.Schedule.{Error, ok, err, compile_schedule}
use phantomcore.Policy.Scope.{parse_client_scope}

pub data Refusal : Type 0 where
  id_required action_required unsupported_action empty_domain empty_scope invalid_scope : Refusal
  invalid_schedule : Error → Refusal
  invalid_regex : Text → Refusal

-- `if err := a; err != nil { return err }; b`
unfoldable pub and_then : Option Refusal → Option Refusal → Option Refusal
and_then (some r) next = some r
and_then none next = next

-- A loop that returns the first error.
unfoldable pub first_refusal : (Text → Option Refusal) → List Text → Option Refusal
unfolding and_then
first_refusal check [] = none
first_refusal check (x ∷ xs) = and_then (check x) (first_refusal check xs)

-- `if c { return r }`
abbrev pub refuse_if : Bool → Refusal → Option Refusal
refuse_if true r = some r
refuse_if false r = none

abbrev pub is_known_action : Text → Bool
is_known_action a =
    same_text (to_upper a) (text "BLOCK")
    || (same_text (to_upper a) (text "ALLOW") || same_text (to_upper a) (text "REDIRECT"))

module _ (os : Platform) where
  unfoldable pub check_schedule : Policy → Option Refusal
  check_schedule p = elim (compile_schedule os p) [
    | ok _ ↦ none
    | err e ↦ some (invalid_schedule e)
  ]

  unfoldable pub check_scope : Text → Option Refusal
  check_scope c =
      if is_empty (trim_space c)
      then some empty_scope
      else elim (parse_client_scope os c) [ none ↦ some invalid_scope | some _ ↦ none ]

  -- `ValidatePolicy`, on a policy that is not nil: `none` is a nil error.
  unfoldable pub validate_policy : Policy → Option Refusal
  unfolding check_schedule check_scope first_refusal
  validate_policy p = and_then (refuse_if (is_empty (trim_space p.id)) id_required) (
      and_then (refuse_if (is_empty (trim_space p.action)) action_required) (
        and_then (if is_known_action p.action then none else some unsupported_action) (
          and_then (first_refusal (λ d. refuse_if (is_empty (trim_space d)) empty_domain) p.domains)
            (and_then (check_schedule p) (first_refusal check_scope p.client_cidrs)))))

  unfoldable pub check_regex : Text → Option Refusal
  check_regex rx = elim (os.compile_regex rx) [ none ↦ some (invalid_regex rx) | some _ ↦ none ]

  -- The body of the loop of `LoadPoliciesFromFile`: the error, if any.
  unfoldable pub check_policy : Policy → Option Refusal
  unfolding validate_policy check_regex
  check_policy p = and_then (validate_policy p) (first_refusal check_regex p.regexes)

-- What the loop does to a policy that it accepts.
unfoldable pub normalized : Policy → Policy
normalized p = record p { domains = map normalize_domain p.domains }

pub data Loaded : Type 0 where
  loaded : List Policy → Loaded
  rejected : Refusal → Loaded

module _ (os : Platform) where
  -- `LoadPoliciesFromFile`, from the policies of the file
  unfoldable pub load_policies : List Policy → Loaded
  unfolding check_policy normalized
  load_policies [] = loaded []
  load_policies (p ∷ ps) =
      let rest = load_policies ps in
      elim (check_policy os p) [
        | some r ↦ rejected r
        | none ↦ elim rest [ loaded qs ↦ loaded (normalized p ∷ qs) | rejected r ↦ rejected r ]
      ]
