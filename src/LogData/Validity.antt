-- ===== src/LogData/Validity.antt =====
-- What `log_data_is_valid` accepts, and the two readings of an event's name.
use iptracking.Prelude.{
  ℕ, ◌<◌, ◌≡◌, refl, ◌≢◌, ◌↔◌, inl, inr, true, none, some, List, [], ◌∷◌, ◌++◌, arith, ◌==◌,
  Bool-cases, subst,
}
use iptracking.Prelude.Text.{codes}
use iptracking.LogData.{
  LogData, LogEvent, unknown, auth, open_session, close_session, event_code, log_event_max,
  log_event_to_str, log_event_parse_str, has_nul, field_is_valid, log_data_is_valid,
}

-- No character of the text is NUL.
abbrev pub NoNul : List ℕ → Type 0
NoNul [] = Unit {0}
NoNul (c ∷ s) = (c ≢ 0) × NoNul s

-- A character array that holds a C string: a text that is not empty, its NUL, and anything behind.
abbrev pub IsText : List ℕ → Type 0
IsText field =
    (text : List ℕ) × (rest : List ℕ) × (field ≡ text ++ 0 ∷ rest) × (text ≢ []) × NoNul text

split_at_nul :
    (s : List ℕ)
    → has_nul s ≡ true
    → (text : List ℕ) × (rest : List ℕ) × (s ≡ text ++ 0 ∷ rest) × NoNul text
unfolding has_nul
split_at_nul [] h = cc
split_at_nul (c ∷ s) h = elim (Bool-cases (c == 0)) [
  | inl nul ↦ ([], s, ground arith, tt)
  | inr other ↦
      let (text, rest, e, clean) = split_at_nul s (ground arith) in
      (c ∷ text, rest, ground arith, (ground arith, clean))
]

has_nul_middle : (s t : List ℕ) → has_nul (s ++ 0 ∷ t) ≡ true
unfolding has_nul
has_nul_middle [] t = refl
has_nul_middle (c ∷ s) t = ground (arith, has_nul_middle s t)

text_field :
    (text rest : List ℕ) → text ≢ [] → NoNul text → field_is_valid (text ++ 0 ∷ rest) ≡ true
unfolding field_is_valid
text_field [] rest ne clean = absurd (ne refl)
text_field (c ∷ text) rest ne clean = ground (arith, has_nul_middle (c ∷ text) rest, clean.0)

field-IsText : (field : List ℕ) → field_is_valid field ≡ true → IsText field
unfolding field_is_valid
field-IsText [] h = cc
field-IsText (c ∷ s) h =
    let (text, rest, e, clean) = split_at_nul (c ∷ s) (ground arith) in
    (text, rest, e, (λ z. not_nul text rest e z), clean)
  where
    not_nul : (text rest : List ℕ) → c ∷ s ≡ text ++ 0 ∷ rest → text ≢ []
    not_nul [] rest e z = ground arith
    not_nul (d ∷ text) rest e z = cc

pub field_is_valid_iff : (field : List ℕ) → (field_is_valid field ≡ true) ↔ IsText field
field_is_valid_iff field =
    (field-IsText field, λ (text, rest, e, ne, clean). rw e (text_field text rest ne clean))

-- `log_data_is_valid` accepts exactly the records whose event is one of the four and whose four
-- character arrays each hold a NUL-terminated text that is not empty.
pub log_data_is_valid_iff :
    (d : LogData)
    → (log_data_is_valid (some d) ≡ true) ↔ (
        (d.event < 4)
        × IsText d.dst_ipaddr
        × IsText d.src_ipaddr
        × IsText d.uid
        × IsText d.log_date)
log_data_is_valid_iff d = (
  λ h.
      let parts = parts_of h in
      (
        parts.0,
        field-IsText d.dst_ipaddr parts.1,
        field-IsText d.src_ipaddr parts.2,
        field-IsText d.uid parts.3,
        field-IsText d.log_date parts.4,
      ),
  λ (event, dst, src, uid, date).
      join event ((field_is_valid_iff d.dst_ipaddr).1 dst) ((field_is_valid_iff d.src_ipaddr).1 src)
        ((field_is_valid_iff d.uid).1 uid) ((field_is_valid_iff d.log_date).1 date),
)
  where
    parts_of :
        log_data_is_valid (some d) ≡ true
        → (d.event < 4)
          × (field_is_valid d.dst_ipaddr ≡ true)
          × (field_is_valid d.src_ipaddr ≡ true)
          × (field_is_valid d.uid ≡ true)
          × (field_is_valid d.log_date ≡ true)
    parts_of h = unfold log_data_is_valid in ground arith

    join :
        d.event < 4
        → field_is_valid d.dst_ipaddr ≡ true
        → field_is_valid d.src_ipaddr ≡ true
        → field_is_valid d.uid ≡ true
        → field_is_valid d.log_date ≡ true
        → log_data_is_valid (some d) ≡ true
    join event dst src uid date = unfold log_data_is_valid in ground arith

-- The name that `log_event_to_str` gives for the number of an event is read back as that event by
-- `log_event_parse_str`.
pub parse-to_str :
    (e : LogEvent) (s : List ℕ)
    → log_event_to_str (event_code e) ≡ some s
    → log_event_parse_str s ≡ e
unfolding log_event_to_str log_event_parse_str event_code
parse-to_str unknown s h =
    let name : codes "unknown" ≡ s = cc in subst (λ x. log_event_parse_str x ≡ unknown) name refl
parse-to_str auth s h =
    let name : codes "auth" ≡ s = cc in subst (λ x. log_event_parse_str x ≡ auth) name refl
parse-to_str open_session s h =
    let name : codes "open_session" ≡ s = cc in
    subst (λ x. log_event_parse_str x ≡ open_session) name refl
parse-to_str close_session s h =
    let name : codes "close_session" ≡ s = cc in
    subst (λ x. log_event_parse_str x ≡ close_session) name refl

-- A number has a name exactly when it is the number of an event.
pub to_str_iff : (n : ℕ) → (log_event_to_str n ≢ none) ↔ (n < log_event_max)
unfolding log_event_to_str
to_str_iff n = (λ h. ground arith, λ h e. ground arith)
