-- ===== src/Callback/Accepted.antt =====
-- When the daemon accepts the record that the callback has gathered.
use iptracking.Prelude.{
  ℕ, ◌+◌, ◌-◌, ◌*◌, ◌%◌, ◌<◌, ◌≡◌, refl, ◌≢◌, ◌↔◌, inl, inr, true, false, ◌||◌, not, Option, none,
  some, List, [], ◌∷◌, arith, Bool-cases, Option-cases, ltb, leb, length, subst, sym,
}
use iptracking.Prelude.Text.{codes, is_space, is_digit, is_empty, first, skip_spaces}
use iptracking.LogData.{
  LogData, LogEvent, unknown, auth, open_session, close_session, log_data_is_valid, has_nul,
  field_is_valid, log_event_parse_str, event_code,
}
use iptracking.LogData.Validity.{NoNul, IsText, field_is_valid_iff, log_data_is_valid_iff}
use iptracking.LogData.Parse.{stored}
use iptracking.Callback.{
  Environment, Outcome, exits, goes_on, ◌>>=◌, present, require, strncpy, address, port_loop, port,
  Endpoints, from_rhost, from_ssh, endpoints, user_of, gather,
}
use iptracking.Callback.Record.{
  stored-IsText, strncpy-IsText, strncpy_long, address-IsText, skip_spaces-NoNul,
}

-- A chain that goes on has gone on at its first step.
went_on {ℓ κ} :
    {A : Type ℓ} {B : Type κ} (x : Outcome A) (f : A → Outcome B) (b : B)
    → (x >>= f) ≡ goes_on b
    → (a : A) × (x ≡ goes_on a) × (f a ≡ goes_on b)
went_on (exits n) f b e = cc
went_on (goes_on a) f b e = (a, refl, e)

port_loop-NoNul :
    (prev value : ℕ) (s : List ℕ) (found : ℕ × List ℕ)
    → NoNul s
    → port_loop prev value s ≡ goes_on found
    → NoNul found.1
unfolding port_loop
port_loop-NoNul prev value [] found clean e =
    let same : (value, []) ≡ found = cc in subst (λ (r : ℕ × List ℕ). NoNul r.1) same tt
port_loop-NoNul prev value (c ∷ s) found clean e = elim (Bool-cases (is_digit c)) [
  | inl d ↦ elim (Bool-cases (ltb ((value * 10 + (c - b'0')) % 65536) prev)) [
    | inl wraps ↦ absurd (let stuck = (rw (d, wraps) at e) in cc)
    | inr grows ↦
        port_loop-NoNul prev ((value * 10 + (c - b'0')) % 65536) s found clean.1
          (rw (d, grows) at e)
  ]
  | inr d ↦
      let same : (value, c ∷ s) ≡ found = (let ended = (rw d at e) in cc) in
      subst (λ (r : ℕ × List ℕ). NoNul r.1) same clean
]

port-NoNul : (s : List ℕ) (found : ℕ × List ℕ) → NoNul s → port s ≡ goes_on found → NoNul found.1
unfolding port
port-NoNul s found clean e =
    let (read, first_step, rest) = went_on (port_loop 0 0 (skip_spaces s)) _ found e in
    elim (Bool-cases (is_empty read.1 || not (is_space (first read.1)))) [
      | inl bad ↦ absurd (let stuck = (rw bad at rest) in cc)
      | inr ok ↦
          let same : read ≡ found = (let ended = (rw ok at rest) in cc) in
          subst (λ (r : ℕ × List ℕ). NoNul r.1) same
            (port_loop-NoNul 0 0 (skip_spaces s) read (skip_spaces-NoNul s clean) first_step)
    ]

-- Both addresses are texts.
abbrev AreTexts : Endpoints → Type 0
AreTexts ends = IsText ends.src × IsText ends.dst

from_ssh-AreTexts :
    (ssh : List ℕ) (ends : Endpoints) → NoNul ssh → from_ssh ssh ≡ goes_on ends → AreTexts ends
unfolding from_ssh
from_ssh-AreTexts ssh ends clean e =
    let (a, is_src, e1) = went_on (address 104 16 ssh) _ ends e in
    let (p, is_port, e2) = went_on (port a.1) _ ends e1 in
    let (b, is_dst, e3) = went_on (address 107 16 p.1) _ ends e2 in
    let src = address-IsText 104 16 ssh a.0 a.1 clean is_src in
    let dst = address-IsText 107 16 p.1 b.0 b.1 (port-NoNul a.1 p src.1 is_port) is_dst in
    let same : record { src = a.0; src_port = p.0; dst = b.0 } ≡ ends = cc in
    subst AreTexts same (src.0, dst.0)

from_rhost-AreTexts :
    (rhost : List ℕ) (ends : Endpoints)
    → rhost ≢ []
    → NoNul rhost
    → from_rhost rhost ≡ goes_on ends
    → AreTexts ends
unfolding from_rhost
from_rhost-AreTexts rhost ends ne clean e = elim (Bool-cases (leb 16 (length rhost))) [
  | inl long ↦ absurd (let stuck = (rw long at e) in cc)
  | inr fits ↦
      let src = strncpy-IsText 16 rhost ne clean (ground arith) in
      let dst = strncpy-IsText 16 (codes "0.0.0.0") (λ z. cc) (grind arith) (omega arith) in
      let same : record { src = strncpy 16 rhost; src_port = 0; dst = strncpy 16 (codes "0.0.0.0") }
          ≡ ends =
        (let ended = (rw fits at e) in cc) in
      subst AreTexts same (src, dst)
]

-- A variable of the environment is a C string, where it is set.
abbrev pub IsClean : Option (List ℕ) → Type 0
IsClean none = Unit {0}
IsClean (some s) = NoNul s

present-IsClean :
    (o : Option (List ℕ)) (s : List ℕ) → IsClean o → present o ≡ some s → (s ≢ []) × NoNul s
unfolding present
present-IsClean none s clean e = cc
present-IsClean (some []) s clean e = cc
present-IsClean (some (c ∷ t)) s clean e =
    let same : c ∷ t ≡ s = cc in subst (λ u. (u ≢ []) × NoNul u) same ((λ z. cc), clean)

user_of-NoNul :
    (env : Environment) → IsClean env.pam_user → (user_of env ≢ []) × NoNul (user_of env)
unfolding user_of
user_of-NoNul env clean = elim (Option-cases (present env.pam_user)) [
  | inl missing ↦ rw (missing, user_of) ((λ z. cc), grind arith)
  | inr (s, there) ↦ rw (there, user_of) (present-IsClean env.pam_user s clean there)
]

required :
    (status : ℕ) (o : Option (List ℕ)) (s : List ℕ) → require status o ≡ goes_on s → o ≡ some s
unfolding require
required status none s e = cc
required status (some t) s e = cc

endpoints-AreTexts :
    (env : Environment) (ends : Endpoints)
    → IsClean env.ssh_connection
    → IsClean env.pam_rhost
    → endpoints env ≡ goes_on ends
    → AreTexts ends
unfolding endpoints require
endpoints-AreTexts env ends ssh_clean rhost_clean e =
    elim (Option-cases (present env.ssh_connection)) [
      | inl missing ↦
          let (rhost, is_rhost, e1) =
            went_on (require 102 (present env.pam_rhost)) from_rhost ends
              (rw (missing, endpoints) at e) in
          let clean =
            present-IsClean env.pam_rhost rhost rhost_clean
              (required 102 (present env.pam_rhost) rhost is_rhost) in
          from_rhost-AreTexts rhost ends clean.0 clean.1 e1
      | inr (ssh, there) ↦
          from_ssh-AreTexts ssh ends (present-IsClean env.ssh_connection ssh ssh_clean there).1
            (rw (there, endpoints) at e)
    ]

event_code-lt : (e : LogEvent) → event_code e < 4
unfolding event_code
event_code-lt unknown = omega arith
event_code-lt auth = omega arith
event_code-lt open_session = omega arith
event_code-lt close_session = omega arith

-- The record with two texts for addresses is valid exactly when the user's name is shorter than its array.
record_is_valid_iff :
    (d : LogData) (user : List ℕ)
    → d.event < 4
    → IsText d.dst_ipaddr
    → IsText d.src_ipaddr
    → IsText d.log_date
    → d.uid ≡ strncpy 60 user
    → (user ≢ []) × NoNul user
    → (log_data_is_valid (some d) ≡ true) ↔ (length user < 60)
record_is_valid_iff d user event dst src date uid clean = (
  λ valid. elim (Bool-cases (ltb (length user) 60)) [
    | inl short ↦ ground arith
    | inr long ↦ absurd (
        no_field (strncpy 60 user) (strncpy_long 60 user clean.1 (ground arith))
          (subst IsText uid ((log_data_is_valid_iff d).0 valid).3))
  ],
  λ short. (log_data_is_valid_iff d).1 (
    event,
    dst,
    src,
    subst IsText (sym uid) (strncpy-IsText 60 user clean.0 clean.1 short),
    date,
  ),
)
  where
    no_field : (field : List ℕ) → has_nul field ≡ false → IsText field → ⊥
    no_field field none_there text =
        let valid = (field_is_valid_iff field).1 text in unfold field_is_valid in ground arith

abbrev filled : Environment → List ℕ → Endpoints → LogData
filled env pam_type ends = record {
  dst_ipaddr = ends.dst;
  src_ipaddr = ends.src;
  src_port = ends.src_port;
  event = event_code (log_event_parse_str pam_type);
  sshd_pid = env.parent_pid;
  uid = strncpy 60 (user_of env);
  log_date = stored 28 env.now;
}

-- In an environment of C strings, with a formatted time that is not empty and fits its array: the
-- record that the callback gathers is accepted by `log_data_is_valid` exactly when the user's name, or
-- what stands for it, is shorter than 60 characters.
pub gather-log_data_is_valid :
    (env : Environment) (d : LogData)
    → IsClean env.pam_user
    → IsClean env.ssh_connection
    → IsClean env.pam_rhost
    → env.now ≢ []
    → NoNul env.now
    → length env.now < 28
    → gather env ≡ goes_on d
    → (log_data_is_valid (some d) ≡ true) ↔ (length (user_of env) < 60)
unfolding gather
gather-log_data_is_valid env d user ssh rhost ne now fits e =
    let (pam_type, is_type, e1) = went_on (require 101 (present env.pam_type)) _ d e in
    let (ends, is_ends, e2) = went_on (endpoints env) _ d e1 in
    let texts = endpoints-AreTexts env ends ssh rhost is_ends in
    let gathered = filled env pam_type ends in
    let same : gathered ≡ d = cc in
    subst (λ x. (log_data_is_valid (some x) ≡ true) ↔ (length (user_of env) < 60)) same
      (record_is_valid_iff gathered (user_of env) (event_code-lt (log_event_parse_str pam_type))
        texts.1 texts.0 (stored-IsText 28 env.now ne now fits) refl (user_of-NoNul env user))
