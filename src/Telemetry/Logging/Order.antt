-- ===== src/Telemetry/Logging/Order.antt =====
-- The order of the fields of a line of telemetry/logging.py.
use mathlib.Core.List.{append_assoc, append-nil}
use bedrock_gateway_platform.Base.{
  ℕ, ◌≡◌, refl, sym, ap, ◌∙◌, String, true, false, Option, none, some, List, [], ◌∷◌, ◌++◌,
  contains, string_eq, ◌==◌, Bool-cases, inl, inr, ==_iff, ==_refl, arith,
}
use bedrock_gateway_platform.Dict
use bedrock_gateway_platform.Dict.{Dict}
use bedrock_gateway_platform.Dict.Distinct.{Distinct}
use bedrock_gateway_platform.Telemetry.Logging.{
  Value, text, is_kept, kept, update, with_error, iso_ts, format, optional_text, level_of,
  log_event, LogHandler, gateway_handler, other_handler, LoggingState, without_ours,
  configure_logging,
}

put-append :
    (k : String) (v : Value) (d : Dict String Value)
    → Dict.get k d ≡ none
    → Dict.put k v d ≡ d ++ (k, v) ∷ []
unfolding Dict.put Dict.get
put-append k v [] h = refl
put-append k v ((j, w) ∷ d) h = ground (arith, h, put-append k v d)

get-append :
    (k : String) (d e : Dict String Value)
    → Dict.get k d ≡ none
    → Dict.get k e ≡ none
    → Dict.get k (d ++ e) ≡ none
unfolding Dict.get
get-append k [] e h g = g
get-append k ((j, w) ∷ d) e h g = ground (arith, h, get-append k d e)

-- No key of the fields is in the dictionary.
abbrev Absent : Dict String Value → Dict String Value → Type 0
Absent [] d = Unit {0}
Absent ((k, v) ∷ fields) d = (Dict.get k d ≡ none) × Absent fields d

Absent-append :
    (k : String) (v : Value) (fields d : Dict String Value)
    → Dict.get k fields ≡ none
    → Absent fields d
    → Absent fields (d ++ (k, v) ∷ [])
unfolding Dict.get
Absent-append k v [] d h a = tt
Absent-append k v ((j, w) ∷ fields) d h a = (
  get-append j d ((k, v) ∷ []) a.0 (ground (arith, h, ==_iff k j, ==_iff j k)),
  Absent-append k v fields d (ground (arith, h)) a.1,
)

update-append :
    (d fields : Dict String Value)
    → Distinct fields
    → Absent fields d
    → update d fields ≡ d ++ fields
unfolding update
update-append d [] h a = sym (append-nil d)
update-append d ((k, v) ∷ fields) h a = rw (put-append k v d a.0) (
    update-append (d ++ (k, v) ∷ []) fields h.1 (Absent-append k v fields d h.0 a.1)
    ∙ append_assoc {0} d ((k, v) ∷ []) fields)

abbrev own_keys : List String
own_keys = "ts" ∷ "level" ∷ "logger" ∷ "request_id" ∷ "message" ∷ "error" ∷ []

-- Fields with names of their own that the formatter does not leave out.
abbrev pub ArePlain : Dict String Value → Type 0
ArePlain [] = Unit {0}
ArePlain ((k, v) ∷ fields) = (is_kept k ≡ true) × (contains k own_keys ≡ false) × ArePlain fields

kept-ArePlain : (fields : Dict String Value) → ArePlain fields → kept fields ≡ fields
unfolding kept
kept-ArePlain [] h = refl
kept-ArePlain ((k, v) ∷ fields) h = rw (h.0, kept-ArePlain fields h.2) refl

get-own_key :
    (key : String) (fields : Dict String Value)
    → contains key own_keys ≡ true
    → ArePlain fields
    → Dict.get key fields ≡ none
unfolding Dict.get
get-own_key key [] own h = refl
get-own_key key ((k, v) ∷ fields) own h = elim (Bool-cases (k == key)) [
  | inl same ↦ cc (own, rw ((==_iff k key).0 same) at h.1)
  | inr other ↦ rw other (get-own_key key fields own h.2)
]

pop_absent : (k : String) (d : Dict String Value) → Dict.get k d ≡ none → Dict.pop k d ≡ d
unfolding Dict.get Dict.pop
pop_absent k [] h = refl
pop_absent k ((j, w) ∷ d) h = ground (arith, h, pop_absent k d)

abbrev first_fields : Value → Value → Value → Value → Dict String Value
first_fields ts level logger request_id =
    ("ts", ts) ∷ ("level", level) ∷ ("logger", logger) ∷ ("request_id", request_id) ∷ []

Absent-first :
    (fields : Dict String Value) (ts level logger request_id : Value)
    → ArePlain fields
    → Absent fields (first_fields ts level logger request_id)
unfolding Dict.get
Absent-first [] ts level logger request_id h = tt
Absent-first ((k, v) ∷ fields) ts level logger request_id h =
    (ground (arith, h.1), Absent-first fields ts level logger request_id h.2)

abbrev pub error_field : Option String → Dict String Value
error_field none = []
error_field (some e) = ("error", text e) ∷ []

get-first_none :
    (key : String) (fields : Dict String Value) (ts level logger request_id : Value)
    → contains key own_keys ≡ true
    → Dict.get key (first_fields ts level logger request_id) ≡ none
    → ArePlain fields
    → Dict.get key (first_fields ts level logger request_id ++ fields) ≡ none
get-first_none key fields ts level logger request_id own absent h =
    get-append key (first_fields ts level logger request_id) fields absent
      (get-own_key key fields own h)

with_error_last :
    (error : Option String) (d : Dict String Value)
    → Dict.get "error" d ≡ none
    → with_error (optional_text error) none d ≡ d ++ error_field error
with_error_last none d h = sym (append-nil d)
with_error_last (some e) d h = put-append "error" (text e) d h

line_of :
    (ts level logger request_id message : Value) (error : Option String)
    (fields : Dict String Value)
    → Distinct fields
    → ArePlain fields
    → with_error
        (optional_text error)
        none
        (Dict.put "message" message (update (first_fields ts level logger request_id) fields))
      ≡ first_fields ts level logger request_id
        ++ (fields ++ ("message", message) ∷ error_field error)
unfolding Dict.get
line_of ts level logger request_id message error fields d h =
    let first = first_fields ts level logger request_id in
    let whole = first ++ fields in
    let no_message = get-first_none "message" fields ts level logger request_id refl refl h in
    let no_error = get-first_none "error" fields ts level logger request_id refl refl h in
    let line = whole ++ ("message", message) ∷ [] in
    let updated : update first fields ≡ whole =
      update-append first fields d (Absent-first fields ts level logger request_id h) in
    ap (λ x. with_error (optional_text error) none (Dict.put "message" message x)) updated
    ∙ ap (λ x. with_error (optional_text error) none x)
        (put-append "message" message whole no_message)
    ∙ with_error_last error line
        (get-append "error" whole (("message", message) ∷ []) no_error refl)
    ∙ append_assoc {0} whole (("message", message) ∷ []) (error_field error)
    ∙ append_assoc {0} first fields (("message", message) ∷ error_field error)

-- A line of the log has its fields in a fixed order, for fields with distinct names that are not the
-- formatter's own, are not reserved and do not begin with an underscore: the time, the level, the
-- logger, the request id, then the fields as the call passed them, then the message, and last the
-- error, exactly if one was passed.
pub format-log_event :
    (date : ℕ → String) (now : ℕ) (logger level message : String) (request_id error : Option String)
    (fields : Dict String Value)
    → Distinct fields
    → ArePlain fields
    → format date (log_event now logger level message request_id error fields)
      ≡ ("ts", text (iso_ts date now))
        ∷ ("level", text (level_of level))
        ∷ ("logger", text logger)
        ∷ ("request_id", optional_text request_id)
        ∷ (fields ++ ("message", text message) ∷ error_field error)
unfolding format log_event Dict.get Dict.pop kept
format-log_event date now logger level message request_id error fields d h =
    let rest : Dict.pop "error" (Dict.pop "request_id" fields) ≡ fields =
      ap (λ x. Dict.pop "error" x)
        (pop_absent "request_id" fields (get-own_key "request_id" fields refl h))
      ∙ pop_absent "error" fields (get-own_key "error" fields refl h) in
    rw (kept-ArePlain fields h, rest)
      (line_of (text (iso_ts date now)) (text (level_of level)) (text logger)
        (optional_text request_id) (text message) error fields d h)

without_ours-append :
    (hs : List LogHandler)
    → without_ours (without_ours hs ++ gateway_handler ∷ []) ≡ without_ours hs
without_ours-append [] = refl
without_ours-append (gateway_handler ∷ hs) = without_ours-append hs
without_ours-append (other_handler name ∷ hs) =
    ap (◌∷◌ (other_handler name)) (without_ours-append hs)

put-put : (k v w : String) (d : Dict String String) → Dict.put k v (Dict.put k w d) ≡ Dict.put k v d
unfolding Dict.put
put-put k v w [] = ground (arith, ==_refl k)
put-put k v w ((j, u) ∷ d) = ground (arith, ==_refl k, put-put k v w d)

-- Configuring the logging again with the same arguments changes nothing: there is never a second
-- handler of the gateway's.
pub configure_logging_idempotent :
    (upper : String → String) (service_name level : String) (state : LoggingState)
    → configure_logging upper service_name level (configure_logging upper service_name level state)
      ≡ configure_logging upper service_name level state
unfolding configure_logging
configure_logging_idempotent upper service_name level state = rw (without_ours-append, put-put) refl
