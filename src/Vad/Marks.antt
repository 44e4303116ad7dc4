-- ===== src/Vad/Marks.antt =====
-- Lemmas on the marks of the signals of a window (process_vad_frame of
-- crates/speech-core-daemon/src/detectors/vad.rs).
use speech_core.Base.{List, [], ◌∷◌, ◌++◌, ◌≡◌, refl, ◌∙◌, ap}
use speech_core.Turn.Signals.{DetectorSignal}
use speech_core.Vad.Machine.{Phase, Mark, marks_of}

pub marks_of-append :
    (xs ys : List DetectorSignal) → marks_of (xs ++ ys) ≡ marks_of xs ++ marks_of ys
unfolding marks_of
marks_of-append [] ys = refl
marks_of-append (DetectorSignal.vad_segment_start x ∷ xs) ys =
    ap (λ m. Mark.opened ∷ m) (marks_of-append xs ys)
marks_of-append (DetectorSignal.vad_segment_end x ∷ xs) ys =
    ap (λ m. Mark.ended ∷ m) (marks_of-append xs ys)
marks_of-append (DetectorSignal.vad_speech_presence x ∷ xs) ys =
    ap (λ m. Mark.present ∷ m) (marks_of-append xs ys)
marks_of-append (DetectorSignal.vad_low_silence x ∷ xs) ys =
    ap (λ m. Mark.lull ∷ m) (marks_of-append xs ys)
marks_of-append (DetectorSignal.transcript_token_committed x ∷ xs) ys = marks_of-append xs ys
marks_of-append (DetectorSignal.model_eou x ∷ xs) ys = marks_of-append xs ys
marks_of-append (DetectorSignal.semantic_turn_decision x ∷ xs) ys = marks_of-append xs ys
marks_of-append (DetectorSignal.vad_acoustic_fallback x ∷ xs) ys = marks_of-append xs ys

append-nil : {A : Type 0} (xs : List A) → (xs ++ []) ≡ xs
append-nil [] = refl
append-nil (x ∷ xs) = ap (λ ys. x ∷ ys) (append-nil xs)

pub same_pair :
    {p q : Phase} {m n : List Mark} → p ≡ q → m ≡ n → ◌≡◌ {A = Phase × List Mark} (p, m) (q, n)
same_pair {p} {q} {m} {n} hp hm = ap (λ x. (x, m)) hp ∙ ap (λ x. (q, x)) hm

pub marks_of-three :
    (a b c : List DetectorSignal) (m : List Mark)
    → marks_of b ≡ m
    → marks_of c ≡ []
    → marks_of (a ++ b ++ c) ≡ marks_of a ++ m
marks_of-three a b c m hb hc =
    marks_of-append (a ++ b) c
    ∙ ap (λ x. marks_of (a ++ b) ++ x) hc
    ∙ append-nil (marks_of (a ++ b))
    ∙ marks_of-append a b
    ∙ ap (λ x. marks_of a ++ x) hb
