-- ===== src/Codegen/Closing/Pieces.antt =====
-- src/codegen/x86_64.rs: pieces of code that end with given bytes.
use mathlib.Core.List.{append_assoc, append-nil}
use armx.Base.{ℕ, ◌≡◌, sym, ap, ◌∙◌, List, [], ◌++◌}
use armx.Codegen.{Emit, emitted, returned, failed, panicked, ◌>>◌, prepend, ending}
use armx.Codegen.Ends.Pieces.{GoesOn}

abbrev pub EndsWith : List ℕ → List ℕ → Type 0
EndsWith tail bytes = (before : List ℕ) × (bytes ≡ before ++ tail)

-- Where there is code.
abbrev pub ClosesWith : List ℕ → Emit → Type 0
ClosesWith tail (emitted bytes) = EndsWith tail bytes
ClosesWith tail (returned bytes) = EndsWith tail bytes
ClosesWith tail _ = Unit

-- An instruction that does not go on.
abbrev pub Leaves : List ℕ → Emit → Type 0
Leaves tail (emitted bytes) = ⊥
Leaves tail (returned bytes) = EndsWith tail bytes
Leaves tail _ = Unit

pub EndsWith-++ : (tail xs ys : List ℕ) → EndsWith tail ys → EndsWith tail (xs ++ ys)
EndsWith-++ tail xs ys (before, e) =
    (xs ++ before, ap (λ (l : List ℕ). xs ++ l) e ∙ sym (append_assoc xs before tail))

pub prepend-ClosesWith :
    (tail xs : List ℕ) (e : Emit) → ClosesWith tail e → ClosesWith tail (prepend xs e)
prepend-ClosesWith tail xs (emitted ys) h = EndsWith-++ tail xs ys h
prepend-ClosesWith tail xs (returned ys) h = EndsWith-++ tail xs ys h
prepend-ClosesWith tail xs (failed err) h = tt
prepend-ClosesWith tail xs panicked h = tt

pub GoesOn-ClosesWith :
    (tail : List ℕ) (e f : Emit) → GoesOn e → ClosesWith tail f → ClosesWith tail (e >> f)
GoesOn-ClosesWith tail (emitted xs) f he hf = prepend-ClosesWith tail xs f hf
GoesOn-ClosesWith tail (returned xs) f he hf = absurd he
GoesOn-ClosesWith tail (failed err) f he hf = tt
GoesOn-ClosesWith tail panicked f he hf = tt

pub Leaves-ClosesWith : (tail : List ℕ) (e f : Emit) → Leaves tail e → ClosesWith tail (e >> f)
Leaves-ClosesWith tail (emitted xs) f h = absurd h
Leaves-ClosesWith tail (returned xs) f h = h
Leaves-ClosesWith tail (failed err) f h = tt
Leaves-ClosesWith tail panicked f h = tt

pub ending-Leaves : (tail : List ℕ) (e : Emit) → ClosesWith tail e → Leaves tail (ending e)
ending-Leaves tail (emitted xs) h = h
ending-Leaves tail (returned xs) h = h
ending-Leaves tail (failed err) h = tt
ending-Leaves tail panicked h = tt

pub snoc-ClosesWith :
    (tail : List ℕ) (e : Emit) → ClosesWith tail e → ClosesWith tail (e >> emitted [])
snoc-ClosesWith tail (emitted xs) h = (h.0, append-nil xs ∙ h.1)
snoc-ClosesWith tail (returned xs) h = h
snoc-ClosesWith tail (failed err) h = tt
snoc-ClosesWith tail panicked h = tt
