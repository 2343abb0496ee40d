-- ===== src/Asprintf/Tests.antt =====
-- Runs of asprintf.
use iptracking.Prelude.{ℕ, ◌-◌, ◌≡◌, refl, true, false, some, List, take}
use iptracking.Prelude.Int.{pos}
use iptracking.Prelude.Text.{codes}
use iptracking.Asprintf.{Vsnprintf, asprintf}

abbrev name : List ℕ
name = codes "hosts_update"

abbrev printing : Vsnprintf
printing size = (pos 12, take (size - 1) name)

printed_name :
    asprintf printing true
    ≡ some (record { fmted_len = pos 12; strp = some name; loses_buffer = false })
unfolding asprintf
printed_name = refl
