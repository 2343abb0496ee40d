-- ===== src/Db/LastError.antt =====
-- The text of a database's last error in libiptracking/db_interface.c: `__db_instance_set_last_error`,
-- `__db_instance_printf_last_error` and `db_get_last_error`.
use mathlib.Core.List.{reverse-cons, reverse-reverse}
use iptracking.Prelude.{
  ℕ, ◌≡◌, refl, sym, subst, ap, ◌∙◌, inl, inr, true, false, Option, none, some, List, [], ◌∷◌, ◌++◌,
  if◌then◌else◌, reverse, reverse-append, take, Bool-cases,
}
use iptracking.Prelude.Int.{ℤ, pos, negsuc}
use iptracking.Prelude.Text.{is_space, skip_spaces}
use iptracking.Db.{Db, drop_back, trimmed}

unfoldable pub db_get_last_error : {S : Type 0} → Option (Db S) → Option (List ℕ)
db_get_last_error none = none
db_get_last_error (some db) = db.last_error

-- The text that is kept: the first characters, or with a negative length the trimmed text.
unfoldable pub kept_text : List ℕ → ℤ → List ℕ
unfolding trimmed
kept_text error_str (pos n) = take n error_str
kept_text error_str (negsuc n) = trimmed error_str

-- `__db_instance_set_last_error`: the answer, and the database. There is memory for the text, and the text
-- is not the one that is kept already, which is freed first.
unfoldable pub set_last_error :
    {S : Type 0} → Option (Db S) → List ℕ → ℤ → Option (List ℕ) × Option (Db S)
unfolding kept_text
set_last_error none error_str error_str_len = (none, none)
set_last_error (some db) error_str error_str_len =
    let kept = some (kept_text error_str error_str_len) in
    (kept, some (record db { last_error = kept }))

-- `__db_instance_printf_last_error`, over what `asprintf` stores under its pointer, where it stores.
unfoldable pub printf_last_error :
    {S : Type 0} → Option (Db S) → Option (List ℕ) → Option (List ℕ) × Option (Db S)
printf_last_error none printed = (none, none)
printf_last_error (some db) printed = (printed, some (record db { last_error = printed }))

abbrev AreSpaces : List ℕ → Type 0
AreSpaces [] = Unit
AreSpaces (c ∷ s) = (is_space c ≡ true) × AreSpaces s

-- No white space stands at the start.
abbrev StartsTight : List ℕ → Type 0
StartsTight [] = Unit
StartsTight (c ∷ s) = is_space c ≡ false

-- The text `t` is `s` without the white space at its two ends.
pub record IsTrimmed (s t : List ℕ) : Type 0 where
  pub lead : List ℕ
  pub trail : List ℕ
  pub lead_spaces : AreSpaces lead
  pub trail_spaces : AreSpaces trail
  pub splits : s ≡ lead ++ (t ++ trail)
  pub starts : StartsTight t
  pub ends : StartsTight (reverse t)

AreSpaces-append : (s t : List ℕ) → AreSpaces s → AreSpaces t → AreSpaces (s ++ t)
AreSpaces-append [] t a b = b
AreSpaces-append (c ∷ s) t (x, a) b = (x, AreSpaces-append s t a b)

AreSpaces-reverse : (s : List ℕ) → AreSpaces s → AreSpaces (reverse s)
AreSpaces-reverse [] a = tt
AreSpaces-reverse (c ∷ s) (x, a) =
    rw (reverse-cons c s) (AreSpaces-append (reverse s) (c ∷ []) (AreSpaces-reverse s a) (x, tt))

skip_spaces-splits :
    (s : List ℕ)
    → (lead : List ℕ) × AreSpaces lead × (s ≡ lead ++ skip_spaces s) × StartsTight (skip_spaces s)
unfolding skip_spaces
skip_spaces-splits [] = ([], tt, refl, tt)
skip_spaces-splits (c ∷ s) = elim (Bool-cases (is_space c)) [
  | inl space ↦
      let (lead, spaces, e, tight) = skip_spaces-splits s in
      rw space (c ∷ lead, (space, spaces), ap (λ t. c ∷ t) e, tight)
  | inr other ↦ rw other ([], tt, refl, other)
]

drop_back-again :
    (x c : ℕ) (r : List ℕ)
    → drop_back (x ∷ (r ++ c ∷ []))
      ≡ (if is_space x then drop_back (r ++ c ∷ []) else x ∷ (r ++ c ∷ []))
unfolding drop_back
drop_back-again x c [] = refl
drop_back-again x c (y ∷ r) = refl

-- What the loop at the end drops, where the text has no white space at its start: the text is reversed, and
-- its first character is `c`.
drop_back-splits :
    (r : List ℕ) (c : ℕ)
    → is_space c ≡ false
    → (gone before : List ℕ) × AreSpaces gone
      × (r ++ c ∷ [] ≡ gone ++ (before ++ c ∷ []))
      × (drop_back (r ++ c ∷ []) ≡ before ++ c ∷ [])
      × StartsTight (before ++ c ∷ [])
unfolding drop_back
drop_back-splits [] c tight = ([], [], tt, refl, refl, tight)
drop_back-splits (x ∷ r) c tight = elim (Bool-cases (is_space x)) [
  | inl space ↦
      let (gone, before, spaces, e, same, starts) = drop_back-splits r c tight in
      (
        x ∷ gone,
        before,
        (space, spaces),
        ap (λ t. x ∷ t) e,
        rw (drop_back-again x c r, space) same,
        starts,
      )
  | inr other ↦ ([], x ∷ r, tt, refl, rw (drop_back-again x c r, other) refl, other)
]

-- What is left of `m`, a text with no white space at its start, and what went.
tail_trimmed :
    (m : List ℕ)
    → StartsTight m
    → (trail : List ℕ) × AreSpaces trail
      × (m ≡ reverse (drop_back (reverse m)) ++ trail)
      × StartsTight (reverse (drop_back (reverse m)))
      × StartsTight (drop_back (reverse m))
unfolding drop_back
tail_trimmed [] tight = ([], tt, refl, tt, tt)
tail_trimmed (c ∷ m) tight =
    let (gone, before, spaces, e, same, starts) = drop_back-splits (reverse m) c tight in
    let whole : reverse (c ∷ m) ≡ gone ++ (before ++ c ∷ []) = reverse-cons c m ∙ e in
    let kept : drop_back (reverse (c ∷ m)) ≡ before ++ c ∷ [] =
      ap drop_back (reverse-cons c m) ∙ same in
    let back : c ∷ m ≡ reverse (before ++ c ∷ []) ++ reverse gone =
      sym (reverse-reverse (c ∷ m)) ∙ ap reverse whole ∙ reverse-append gone (before ++ c ∷ []) in
    let c_first : StartsTight (reverse (before ++ c ∷ [])) =
      subst StartsTight (sym (reverse-append before (c ∷ []))) tight in
    rw kept (reverse gone, AreSpaces-reverse gone spaces, back, c_first, starts)

-- What is kept of a text whose length is given as negative is the text without the white space at its two
-- ends, for every text, also an empty one or one of white space only.
pub set_last_error-IsTrimmed :
    {S : Type 0} (db : Db S) (s : List ℕ) (n : ℕ)
    → (t : List ℕ) × IsTrimmed s t
      × (set_last_error (some db) s (negsuc n) ≡ (some t, some (record db { last_error = some t })))
unfolding set_last_error trimmed
set_last_error-IsTrimmed db s n =
    let (lead, lead_spaces, e, tight) = skip_spaces-splits s in
    let (trail, trail_spaces, e2, starts, ends) = tail_trimmed (skip_spaces s) tight in
    let kept : IsTrimmed s (trimmed s) = record {
      lead = lead;
      trail = trail;
      lead_spaces = lead_spaces;
      trail_spaces = trail_spaces;
      splits = e ∙ ap (λ m. lead ++ m) e2;
      starts = starts;
      ends = subst StartsTight (sym (reverse-reverse (drop_back (reverse (skip_spaces s))))) ends;
    } in
    (trimmed s, kept, refl)
