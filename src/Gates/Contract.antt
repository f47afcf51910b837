-- ===== src/Gates/Contract.antt =====
-- saffron/gates/contract.py: the gate contract, its line splitter and the identity of a failure.
pub mod Lines
pub mod Normal
pub use saffron.Prelude.{ℤ, pos, negsuc}
use saffron.Prelude.{
  ℕ, Bool, true, false, ◌&&◌, List, [], ◌∷◌, ◌++◌, map, Option, none, some, Text, same, is_empty,
  ◌==◌, if◌then◌else◌,
}

-- `GateStatus`
pub data Status : Type 0 where
  pass fail skip error : Status

pub record Failure : Type 0 where
  pub file : Text
  pub line : Option ℤ
  pub code : Text
  pub message : Text

pub record GateResult : Type 0 where
  pub schema_version : ℕ
  pub gate : Text
  pub status : Status
  pub tool : Option Text
  pub collected : Option (List Text)
  pub uncollected : Option (List Text)
  pub failures : List Failure
  pub summary : Text
  pub duration_ms : Option ℕ

-- `GateResult(gate=…, status=…, failures=…, summary=…)`: the other fields at their defaults.
abbrev pub gate_result : Text → Status → List Failure → Text → GateResult
gate_result gate status failures summary = record {
  schema_version = 1;
  gate = gate;
  status = status;
  tool = none;
  collected = none;
  uncollected = none;
  failures = failures;
  summary = summary;
  duration_ms = none;
}

abbrev pub newline : ℕ
newline = 10

abbrev pub carriage_return : ℕ
carriage_return = 13

-- Puts a character in front of the first piece.
abbrev pub onto_head : ℕ → List Text → List Text
onto_head c [] = (c ∷ []) ∷ []
onto_head c (piece ∷ pieces) = (c ∷ piece) ∷ pieces

-- `text.split("\n")`: one piece more than there are separators.
unfoldable pub split : Text → List Text
split [] = [] ∷ []
split (c ∷ s) = let pieces = split s in if c == newline then [] ∷ pieces else onto_head c pieces

-- `text.endswith(suffix)` for a suffix of one character
unfoldable pub ends_with : ℕ → Text → Bool
ends_with suffix [] = false
ends_with suffix (c ∷ []) = c == suffix
ends_with suffix (c ∷ d ∷ s) = ends_with suffix (d ∷ s)

-- `lines.pop()` and `line[:-1]`
unfoldable pub drop_last {ℓ} : {A : Type ℓ} → List A → List A
drop_last [] = []
drop_last (x ∷ []) = []
drop_last (x ∷ y ∷ xs) = x ∷ drop_last (y ∷ xs)

unfoldable pub strip_return : Text → Text
unfolding ends_with drop_last
strip_return line = if ends_with carriage_return line then drop_last line else line

unfoldable pub split_lines : Text → List Text
unfolding split strip_return
split_lines text =
    map strip_return (if ends_with newline text then drop_last (split text) else split text)

-- The character classes of `re` and of `str.strip`, which are Unicode tables: `\d` and `\s`.
pub record CharClasses : Type 0 where
  pub is_digit : ℕ → Bool
  pub is_space : ℕ → Bool

abbrev pub letter_n : ℕ
letter_n = 78

abbrev pub space : ℕ
space = 32

-- `re.compile(class+).sub(by, text)`, from inside a run of the class or from outside.
unfoldable pub collapse : (ℕ → Bool) → ℕ → Bool → Text → Text
collapse test by inside [] = []
collapse test by inside (c ∷ s) =
    let rest = collapse test by (test c) s in
    if test c then (if inside then rest else by ∷ rest) else c ∷ rest

unfoldable pub lstrip : (ℕ → Bool) → Text → Text
lstrip test [] = []
lstrip test (c ∷ s) = let rest = lstrip test s in if test c then rest else c ∷ s

unfoldable pub rstrip : (ℕ → Bool) → Text → Text
rstrip test [] = []
rstrip test (c ∷ s) = let rest = rstrip test s in if is_empty rest && test c then [] else c ∷ rest

module _ (classes : CharClasses) where
  unfoldable pub normalize_message : Text → Text
  unfolding collapse lstrip rstrip
  normalize_message message =
      let digits = collapse classes.is_digit letter_n false message in
      let spaces = collapse classes.is_space space false digits in
      rstrip classes.is_space (lstrip classes.is_space spaces)

pub record Identity : Type 0 where
  pub gate : Text
  pub file : Text
  pub code : Text
  pub message : Text

unfoldable pub same_identity : Identity → Identity → Bool
same_identity a b =
    same a.gate b.gate && (same a.file b.file && (same a.code b.code && same a.message b.message))

unfoldable pub identity : CharClasses → Text → Failure → Identity
identity classes gate failure = record {
  gate = gate;
  file = failure.file;
  code = failure.code;
  message = normalize_message classes failure.message;
}
