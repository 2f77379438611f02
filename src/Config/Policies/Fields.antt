-- ===== src/Config/Policies/Fields.antt =====
-- What the values of an entry of the tenants' file of policy/store.py mean, field by field.
pub mod Calls
use bedrock_gateway_platform.Base.{
  ◌≡◌, ◌↔◌, String, Bool, true, false, Option, none, some, List, [], ◌∷◌, map, string_eq, ◌==◌,
  ==_iff, Bool-cases, if◌then◌else◌,
}
use bedrock_gateway_platform.Base.Int.{ℤ, pos, times_hundred}
use bedrock_gateway_platform.Dict.{Dict}
use bedrock_gateway_platform.Policy.Models.{TenantState, active, value}
use bedrock_gateway_platform.Config.Numbers.{int_of}
use bedrock_gateway_platform.Config.Yaml.{
  Yaml, null, boolean, integer, text, sequence, mapping, pairs, list_of, truth, characters,
}

-- A mapping has its entries, and nothing and the other false values have none.
abbrev pub AreEntries : Yaml → Dict String Yaml → Type 0
AreEntries (mapping es) d = d ≡ pairs es
AreEntries y d = (truth y ≡ false) × (d ≡ [])

-- A whole number, or a text or a truth value that stands for one.
abbrev pub IsNumber : ℤ → Option Yaml → ℤ → Type 0
IsNumber default none z = z ≡ default
IsNumber default (some (integer n)) z = z ≡ n
IsNumber default (some (boolean true)) z = z ≡ pos 1
IsNumber default (some (boolean false)) z = z ≡ pos 0
IsNumber default (some (text s)) z = int_of s ≡ some z
IsNumber default (some _) z = ⊥

abbrev pub IsState : Option Yaml → TenantState → Type 0
IsState none state = state ≡ active
IsState (some (text s)) state = value state ≡ s
IsState (some _) state = ⊥

abbrev pub IsText : String → Option Yaml → String → Type 0
IsText default none s = s ≡ default
IsText default (some (text t)) s = s ≡ t
IsText default (some _) s = ⊥

abbrev pub IsOptionalText : Option Yaml → Option String → Type 0
IsOptionalText none o = o ≡ none
IsOptionalText (some null) o = o ≡ none
IsOptionalText (some (text t)) o = o ≡ some t
IsOptionalText (some _) o = ⊥

-- The texts of a sequence, one by one.
abbrev pub AreTexts : List Yaml → List String → Type 0
AreTexts [] [] = Unit {0}
AreTexts (text s ∷ ys) (t ∷ ts) = (s ≡ t) × AreTexts ys ts
AreTexts _ _ = ⊥

-- A sequence of texts, the characters of a text, or the keys of a mapping.
abbrev pub AreModels : Option Yaml → List String → Type 0
AreModels none models = models ≡ []
AreModels (some (sequence ys)) models = AreTexts (list_of ys) models
AreModels (some (text s)) models = models ≡ characters s
AreModels (some (mapping es)) models = models ≡ map (λ (k, y). k) (pairs es)
AreModels (some _) models = ⊥

-- A latency in milliseconds, in hundredths of one.
abbrev pub IsLatency : Option Yaml → Option ℤ → Type 0
IsLatency none l = l ≡ none
IsLatency (some null) l = l ≡ none
IsLatency (some (integer n)) l = l ≡ some (times_hundred n)
IsLatency (some (boolean true)) l = l ≡ some (pos 100)
IsLatency (some (boolean false)) l = l ≡ some (pos 0)
IsLatency (some _) l = ⊥

abbrev pub IsFlag : Option Yaml → Bool → Type 0
IsFlag none b = b ≡ false
IsFlag (some y) b = b ≡ truth y
