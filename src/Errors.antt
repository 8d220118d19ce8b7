-- ===== src/Errors.antt =====
-- Go's error values: dasher/dasher.go (poisonError, Poison, IsPoison), and the ErrPoison and
-- IsPoison of dasher/internal/lookup/runner.go.
use dasher.Common.{String, Bool, true, false, ◌==◌, Option, none, some, ◌≡◌, ◌↔◌, refl, arith}

-- An error built by `errors.New`, or that comes from a library, is known by its text; `wrapped`
-- is `fmt.Errorf` with `%w`, by the text in front of the wrapped error.
pub data Error : Type 0 where
  plain : String → Error
  wrapped : String → Error → Error
  poison_error : Error → Error
  lookup_poison : String → Error

-- `Unwrap`, as `errors.As` and `errors.Is` call it.
unfoldable pub unwrap : Error → Option Error
unwrap (plain s) = none
unwrap (wrapped s e) = some e
unwrap (poison_error e) = some e
unwrap (lookup_poison s) = none

-- dasher.Poison; a nil error is `none`.
unfoldable pub poison : Option Error → Option Error
poison none = none
poison (some e) = some (poison_error e)

-- dasher.IsPoison, on an error that is not nil.
unfoldable pub is_poison : Error → Bool
is_poison (plain s) = false
is_poison (wrapped s e) = is_poison e
is_poison (poison_error e) = true
is_poison (lookup_poison s) = false

-- lookup.IsPoison
unfoldable pub is_lookup_poison : Error → Bool
is_lookup_poison (plain s) = false
is_lookup_poison (wrapped s e) = is_lookup_poison e
is_lookup_poison (poison_error e) = is_lookup_poison e
is_lookup_poison (lookup_poison s) = true

-- `errors.Is` against a sentinel that is known by its text.
unfoldable pub is_sentinel : String → Error → Bool
is_sentinel t (plain s) = s == t
is_sentinel t (wrapped s e) = is_sentinel t e
is_sentinel t (poison_error e) = is_sentinel t e
is_sentinel t (lookup_poison s) = false

-- The chain of an error: itself, and what `Unwrap` reaches from it.
pub data Wraps : Error → Error → Type 0 where
  itself : (e : Error) → Wraps e e
  under : (s : String) {e f : Error} → Wraps e f → Wraps (wrapped s e) f
  inside : {e f : Error} → Wraps e f → Wraps (poison_error e) f

is_poison_of_Wraps : {e f : Error} → Wraps e f → is_poison f ≡ true → is_poison e ≡ true
unfolding is_poison
is_poison_of_Wraps (itself e) h = h
is_poison_of_Wraps (under s w) h = is_poison_of_Wraps w h
is_poison_of_Wraps (inside w) h = refl

Wraps-of_is_poison : (e : Error) → is_poison e ≡ true → (f : Error) × Wraps e (poison_error f)
unfolding is_poison
Wraps-of_is_poison (wrapped s e) h = let (f, w) = Wraps-of_is_poison e h in (f, under s w)
Wraps-of_is_poison (poison_error e) h = (e, itself (poison_error e))
Wraps-of_is_poison (plain s) h = ground arith
Wraps-of_is_poison (lookup_poison s) h = ground arith

-- `IsPoison` holds of an error exactly when its chain of wrapped errors holds one that `Poison`
-- made, however deep.
pub is_poison_iff : (e : Error) → (is_poison e ≡ true) ↔ ((f : Error) × Wraps e (poison_error f))
is_poison_iff e = (Wraps-of_is_poison e, λ found. holds found)
  where
    holds : (f : Error) × Wraps e (poison_error f) → is_poison e ≡ true
    holds (f, w) = is_poison_of_Wraps w (unfold is_poison in refl)
