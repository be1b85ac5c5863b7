-- ===== src/Absl/Examples.antt =====
-- A concrete value of the abseil functions, for the examples: messages are not formatted.
use code_contests.Prelude.{refl, []}
use code_contests.Status.{Status, ok, err}
use code_contests.Absl.{Absl}

abbrev keep_first : Status → Status → Status
keep_first (ok u) s = s
keep_first (err e) s = err e

abbrev pub plain_absl : Absl
plain_absl = record {
  substitute = λ format _. format;
  update = keep_first;
  update-ok = λ s. refl;
  update-err = λ e s. refl;
  moved_from = λ _. ok [];
}
