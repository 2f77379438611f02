-- ===== src/Config/Policies/Fields/Calls.antt =====
-- The calls in policy/store.py that read the values of an entry, one for each field.
use bedrock_gateway_platform.Base.{
  ◌≡◌, ◌↔◌, refl, sym, String, Bool, true, false, Option, none, some, List, [], ◌∷◌, ok, raise,
  string_eq, ◌==◌, ==_iff, Bool-cases, inl, inr, if◌then◌else◌,
}
use bedrock_gateway_platform.Base.Int.{ℤ}
use bedrock_gateway_platform.Dict.{Dict}
use bedrock_gateway_platform.Policy.Models.{
  TenantState, active, throttled, read_only, suspended, emergency_block, value, parse_state,
}
use bedrock_gateway_platform.Config.Numbers.{int_of}
use bedrock_gateway_platform.Config.Yaml.{
  Yaml, null, boolean, integer, text, sequence, mapping, no_items, no_entries, entry, LoadError,
  Loaded, attribute_error, list_of, truth, or_empty, value_or, number_or, int, string,
  string_or_none, added, strings, list,
}
use bedrock_gateway_platform.Config.Policies.{known, state_of, latency}
use bedrock_gateway_platform.Config.Policies.Fields.{
  AreEntries, IsNumber, IsState, IsText, IsOptionalText, AreTexts, AreModels, IsLatency, IsFlag,
}

pub ok_iff : {A : Type 0} (a b : A) → let loaded : Loaded A = ok a in (loaded ≡ ok b) ↔ (b ≡ a)
ok_iff a b = (λ h. cc h, λ h. cc h)

never : {A : Type 0} (e : LoadError) (b : A) → (raise e ≡ ok b) ↔ ⊥
never e b = (λ h. cc h, λ h. absurd h)

falsy_iff :
    (truthy : Bool) (d : Dict String Yaml)
    → let loaded : Loaded (Dict String Yaml) = elim truthy [
      | true ↦ raise attribute_error
      | false ↦ ok []
    ] in
      (loaded ≡ ok d) ↔ ((truthy ≡ false) × (d ≡ []))
falsy_iff true d = (λ h. cc h, λ h. absurd (cc (h.0)))
falsy_iff false d = (λ h. (refl, cc h), λ h. rw (h.1) refl)

number_or_iff : (o : Option ℤ) (z : ℤ) → (number_or o ≡ ok z) ↔ (o ≡ some z)
number_or_iff none z = (λ h. cc h, λ h. cc h)
number_or_iff (some n) z = (λ h. cc h, λ h. cc h)

pub or_empty_iff : (y : Yaml) (d : Dict String Yaml) → (or_empty y ≡ ok d) ↔ AreEntries y d
unfolding or_empty
or_empty_iff (mapping no_entries) d = ok_iff _ _
or_empty_iff (mapping (entry k y es)) d = ok_iff _ _
or_empty_iff null d = falsy_iff false d
or_empty_iff (boolean b) d = falsy_iff b d
or_empty_iff (integer z) d = falsy_iff (truth (integer z)) d
or_empty_iff (text s) d = falsy_iff (truth (text s)) d
or_empty_iff (sequence ys) d = falsy_iff (truth (sequence ys)) d

pub int_iff :
    (default : ℤ) (o : Option Yaml) (z : ℤ)
    → (int (value_or (integer default) o) ≡ ok z) ↔ IsNumber default o z
int_iff default none z = ok_iff _ _
int_iff default (some null) z = never _ _
int_iff default (some (boolean true)) z = ok_iff _ _
int_iff default (some (boolean false)) z = ok_iff _ _
int_iff default (some (integer n)) z = ok_iff _ _
int_iff default (some (text s)) z = number_or_iff (int_of s) z
int_iff default (some (sequence ys)) z = never _ _
int_iff default (some (mapping es)) z = never _ _

pub string_iff :
    (default : String) (o : Option Yaml) (s : String)
    → (string (value_or (text default) o) ≡ ok s) ↔ IsText default o s
string_iff default none s = ok_iff _ _
string_iff default (some null) s = never _ _
string_iff default (some (boolean b)) s = never _ _
string_iff default (some (integer n)) s = never _ _
string_iff default (some (text t)) s = ok_iff _ _
string_iff default (some (sequence ys)) s = never _ _
string_iff default (some (mapping es)) s = never _ _

pub string_or_none_iff :
    (o : Option Yaml) (s : Option String)
    → (string_or_none (value_or null o) ≡ ok s) ↔ IsOptionalText o s
string_or_none_iff none s = ok_iff _ _
string_or_none_iff (some null) s = ok_iff _ _
string_or_none_iff (some (boolean b)) s = never _ _
string_or_none_iff (some (integer n)) s = never _ _
string_or_none_iff (some (text t)) s = ok_iff _ _
string_or_none_iff (some (sequence ys)) s = never _ _
string_or_none_iff (some (mapping es)) s = never _ _

pub latency_iff :
    (o : Option Yaml) (l : Option ℤ) → (latency (value_or null o) ≡ ok l) ↔ IsLatency o l
latency_iff none l = ok_iff _ _
latency_iff (some null) l = ok_iff _ _
latency_iff (some (boolean true)) l = ok_iff _ _
latency_iff (some (boolean false)) l = ok_iff _ _
latency_iff (some (integer n)) l = ok_iff _ _
latency_iff (some (text t)) l = never _ _
latency_iff (some (sequence ys)) l = never _ _
latency_iff (some (mapping es)) l = never _ _

pub truth_iff : (o : Option Yaml) (b : Bool) → (truth (value_or (boolean false) o) ≡ b) ↔ IsFlag o b
truth_iff none b = (sym, sym)
truth_iff (some y) b = (sym, sym)

parse_state-value : (state : TenantState) → parse_state (value state) ≡ some state
unfolding parse_state
parse_state-value active = refl
parse_state-value throttled = refl
parse_state-value read_only = refl
parse_state-value suspended = refl
parse_state-value emergency_block = refl

-- One test of the chain in `parse_state`.
tested :
    (s name : String) (v state : TenantState) (rest : Option TenantState)
    → value v ≡ name
    → (rest ≡ some state → value state ≡ s)
    → (if s == name then some v else rest) ≡ some state
    → value state ≡ s
tested s name v state rest named others h = elim (Bool-cases (s == name)) [
  | inl own ↦
      let same : v ≡ state = cc (rw own at h) in rw (← same, named) (sym ((==_iff s name).0 own))
  | inr other ↦ others (rw other at h)
]

value-parse_state :
    (s : String) (state : TenantState) → parse_state s ≡ some state → value state ≡ s
unfolding parse_state
value-parse_state s state = tested s "ACTIVE" active state _ refl (
    tested s "THROTTLED" throttled state _ refl (
      tested s "READ_ONLY" read_only state _ refl (
        tested s "SUSPENDED" suspended state _ refl
          (tested s "EMERGENCY_BLOCK" emergency_block state _ refl λ h. cc h))))

known_iff : (o : Option TenantState) (state : TenantState) → (known o ≡ ok state) ↔ (o ≡ some state)
known_iff none state = (λ h. cc h, λ h. cc h)
known_iff (some s) state = (λ h. cc h, λ h. cc h)

pub state_of_iff :
    (o : Option Yaml) (state : TenantState)
    → (state_of (value_or (text "ACTIVE") o) ≡ ok state) ↔ IsState o state
unfolding parse_state
state_of_iff none state = ok_iff _ _
state_of_iff (some (text s)) state = (
  λ h. value-parse_state s state ((known_iff (parse_state s) state).0 h),
  λ h. rw (← h, parse_state-value state) refl,
)
state_of_iff (some null) state = never _ _
state_of_iff (some (boolean b)) state = never _ _
state_of_iff (some (integer n)) state = never _ _
state_of_iff (some (sequence ys)) state = never _ _
state_of_iff (some (mapping es)) state = never _ _

added_iff :
    (x : String) (ys : List Yaml) (r : Loaded (List String)) (ts : List String)
    → ((us : List String) → (r ≡ ok us) ↔ AreTexts ys us)
    → (added (ok x) r ≡ ok ts) ↔ AreTexts (text x ∷ ys) ts
added_iff x ys (raise e) [] ih = (λ h. cc h, λ h. absurd h)
added_iff x ys (raise e) (t ∷ ts) ih = (λ h. cc h, λ h. cc ((ih ts).1 h.1))
added_iff x ys (ok us) [] ih = (λ h. cc h, λ h. absurd h)
added_iff x ys (ok us) (t ∷ ts) ih = (
  λ h. (cc h, (ih ts).0 (cc h)),
  λ h. let same : us ≡ ts = cc ((ih ts).1 h.1) in rw (h.0, same) refl,
)

strings_iff : (ys : List Yaml) (ts : List String) → (strings ys ≡ ok ts) ↔ AreTexts ys ts
unfolding strings
strings_iff [] [] = (λ h. tt, λ h. refl)
strings_iff [] (t ∷ ts) = (λ h. cc h, λ h. absurd h)
strings_iff (text x ∷ ys) ts = added_iff x ys (strings ys) ts (strings_iff ys)
strings_iff (null ∷ ys) ts = never _ _
strings_iff (boolean b ∷ ys) ts = never _ _
strings_iff (integer n ∷ ys) ts = never _ _
strings_iff (sequence zs ∷ ys) ts = never _ _
strings_iff (mapping es ∷ ys) ts = never _ _

pub list_iff :
    (o : Option Yaml) (models : List String)
    → (list (value_or (sequence no_items) o) ≡ ok models) ↔ AreModels o models
unfolding list strings
list_iff none models = ok_iff _ _
list_iff (some null) models = never _ _
list_iff (some (boolean b)) models = never _ _
list_iff (some (integer n)) models = never _ _
list_iff (some (text t)) models = ok_iff _ _
list_iff (some (sequence ys)) models = strings_iff (list_of ys) models
list_iff (some (mapping es)) models = ok_iff _ _
