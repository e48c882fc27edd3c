-- ===== src/Admit/Checks.antt =====
-- The checks of internal/api and internal/exec on what comes over the wire: a check finds a fault or
-- nothing. A `switch`, or a row of `if err != nil`, is a chain of checks.
use panely.Kit.{ℕ, String, Bool, true, false, ◌≡◌, refl, Option, none, some}

-- What a check complains of, with the field that it names.
pub data Fault : Type 0 where
  missing : String → Fault
  malformed : String → String → Fault
  too_long : String → ℕ → Fault
  too_many : String → ℕ → Fault
  out_of_range : String → ℕ → Fault
  not_absolute : String → Fault
  not_relative : String → Fault
  not_clean : String → String → Fault
  outside : String → Fault
  has_backslash : String → Fault
  has_nul : String → Fault
  has_space : String → Fault
  reserved : String → String → Fault
  twice : String → Fault
  overlapping : String → String → Fault
  no_volume : ℕ → Fault
  set_and_removed : String → Fault
  not_listed : String → Fault
  of_volume : String → Fault → Fault

abbrev pub fault_if : Bool → Fault → Option Fault
fault_if true x = some x
fault_if false x = none

-- The first fault of two checks.
infixr 5 ◌then◌
abbrev pub ◌then◌ : Option Fault → Option Fault → Option Fault
none then next = next
some x then next = some x

pub fault_if-none : (b : Bool) (x : Fault) → fault_if b x ≡ none → b ≡ false
fault_if-none true x e = absurd cc
fault_if-none false x e = refl

pub then-none : (a b : Option Fault) → a then b ≡ none → (a ≡ none) × (b ≡ none)
then-none none b e = (refl, e)
then-none (some x) b e = absurd cc

-- A guard in front of checks that find nothing.
pub guard-none :
    (b : Bool) (x : Fault) (next : Option Fault)
    → fault_if b x then next ≡ none
    → (b ≡ false) × (next ≡ none)
guard-none true x next e = absurd cc
guard-none false x next e = (refl, e)
