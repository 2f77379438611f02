-- ===== src/Config/Yaml.antt =====
-- A document that `yaml.safe_load` has read, and what the loaders of policy/store.py,
-- routing/router.py and auth/aws_iam.py do to its values. The keys of a mapping are texts; floats and
-- dates are left out.
use bedrock_gateway_platform.Base.{
  String, Bool, true, false, not, Option, none, some, List, [], ◌∷◌, map, Result, ok, raise,
  string_eq, nat_eq, ◌==◌,
}
use bedrock_gateway_platform.Base.Int.{ℤ, pos, negsuc}
use bedrock_gateway_platform.Config.Numbers.{int_of}
use bedrock_gateway_platform.Dict
use bedrock_gateway_platform.Dict.{Dict}

mutual
  pub data Yaml : Type 0 where
    null : Yaml
    boolean : Bool → Yaml
    integer : ℤ → Yaml
    text : String → Yaml
    sequence : Items → Yaml
    mapping : Entries → Yaml

  pub data Items : Type 0 where
    no_items : Items
    item : Yaml → Items → Items

  pub data Entries : Type 0 where
    no_entries : Entries
    entry : String → Yaml → Entries → Entries

-- The exceptions by their class. `left_out` is none of them: the program goes on with a value that the
-- annotation of its field does not allow, and the model leaves the document out.
pub data LoadError : Type 0 where
  value_error type_error attribute_error key_error left_out : LoadError

abbrev pub Loaded : Type 0 → Type 0
Loaded = Result LoadError

abbrev pub list_of : Items → List Yaml
list_of no_items = []
list_of (item y ys) = y ∷ list_of ys

abbrev pub pairs : Entries → Dict String Yaml
pairs no_entries = []
pairs (entry k y es) = (k, y) ∷ pairs es

-- bool(y)
abbrev pub truth : Yaml → Bool
truth null = false
truth (boolean b) = b
truth (integer (pos n)) = not (n == 0)
truth (integer (negsuc n)) = true
truth (text s) = not (s == "")
truth (sequence no_items) = false
truth (sequence (item y ys)) = true
truth (mapping no_entries) = false
truth (mapping (entry k y es)) = true

abbrev pub entries_as : LoadError → Yaml → Loaded (Dict String Yaml)
entries_as e (mapping es) = ok (pairs es)
entries_as e _ = raise e

-- The entries of `y or {}`. A value that is neither false nor a mapping raises at its first use: it
-- has no `get` and no `items`, and no texts as subscripts.
abbrev pub or_empty_as : LoadError → Yaml → Loaded (Dict String Yaml)
or_empty_as e y = elim (truth y) [ true ↦ entries_as e y | false ↦ ok [] ]

unfoldable pub or_empty : Yaml → Loaded (Dict String Yaml)
or_empty = or_empty_as attribute_error

-- d.get(key), d.get(key, fallback)
abbrev pub value_or : Yaml → Option Yaml → Yaml
value_or fallback none = fallback
value_or fallback (some y) = y

abbrev pub get_or : Dict String Yaml → String → Yaml → Yaml
get_or d key fallback = value_or fallback (Dict.get key d)

-- The entries of `d.get(key) or {}`.
abbrev pub section : Dict String Yaml → String → Loaded (Dict String Yaml)
section d key = or_empty (get_or d key null)

-- d[key]
abbrev pub present : Option Yaml → Loaded Yaml
present none = raise key_error
present (some y) = ok y

abbrev pub number_or : Option ℤ → Loaded ℤ
number_or none = raise value_error
number_or (some n) = ok n

-- int(y)
abbrev pub int : Yaml → Loaded ℤ
int (boolean true) = ok (pos 1)
int (boolean false) = ok (pos 0)
int (integer n) = ok n
int (text s) = number_or (int_of s)
int _ = raise type_error

-- A value that is to be a text.
abbrev pub string : Yaml → Loaded String
string (text s) = ok s
string _ = raise left_out

abbrev pub string_or_none : Yaml → Loaded (Option String)
string_or_none null = ok none
string_or_none (text s) = ok (some s)
string_or_none _ = raise left_out

abbrev pub characters : String → List String
characters String.[] = []
characters (String.◌∷◌ c s) = String.◌∷◌ c String.[] ∷ characters s

abbrev pub added : Loaded String → Loaded (List String) → Loaded (List String)
added (raise e) rest = raise e
added (ok s) (raise e) = raise e
added (ok s) (ok rest) = ok (s ∷ rest)

unfoldable pub strings : List Yaml → Loaded (List String)
strings [] = ok []
strings (y ∷ ys) = added (string y) (strings ys)

-- list(y), for a list of texts.
unfoldable pub list : Yaml → Loaded (List String)
list (sequence ys) = strings (list_of ys)
list (text s) = ok (characters s)
list (mapping es) = ok (map (λ (k, y). k) (pairs es))
list _ = raise type_error
