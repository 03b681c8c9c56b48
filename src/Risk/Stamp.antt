-- ===== src/Risk/Stamp.antt =====
-- A timestamp of a row as app/risk finds it: absent or empty; a text that `datetime.fromisoformat`
-- refuses; or an instant in microseconds, which is what a datetime and every other text stand for
-- once it has got the time zone UTC where it has none.
use adept_engine.Base.{ℕ, List, [], ◌∷◌, codes}
use adept_engine.Jobs.Errors.{Result, ok, err, value_error, ◌>>=◌}

pub data Stamp : Type 0 where
  missing : Stamp
  malformed : Stamp
  instant : ℕ → Stamp

-- `a or b`
abbrev pub or_stamp : Stamp → Stamp → Stamp
or_stamp missing b = b
or_stamp malformed b = malformed
or_stamp (instant a) b = instant a

-- The instants of the stamps, where a malformed one raises.
abbrev pub strict : List Stamp → Result (List ℕ)
strict [] = ok []
strict (missing ∷ stamps) = strict stamps
strict (malformed ∷ stamps) = err (value_error (codes "Invalid isoformat string"))
strict (instant a ∷ stamps) = strict stamps >>= (λ rest. ok (a ∷ rest))

-- The instants of the stamps, where a malformed one is passed over.
abbrev pub lenient : List Stamp → List ℕ
lenient [] = []
lenient (missing ∷ stamps) = lenient stamps
lenient (malformed ∷ stamps) = lenient stamps
lenient (instant a ∷ stamps) = a ∷ lenient stamps
