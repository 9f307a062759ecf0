-- ===== src/PendingInput/Samples.antt =====
-- Chunks of small inputs.
use tttt.Base.{ℕ, ◌≤◌, ◌<◌, ◌≡◌, refl, List, [], ◌∷◌, length, arith}
use tttt.PendingInput.{chunk_len, step_back, step_on, IsBoundary, chunk_len_progress}

-- "aé" and "é", with a limit inside the character.
cut_characters :
    (chunk_len (b'a' ∷ 0xc3 ∷ 0xa9 ∷ []) 2 ≡ 1) × (chunk_len (0xc3 ∷ 0xa9 ∷ b'a' ∷ []) 1 ≡ 2)
unfolding chunk_len step_back step_on
cut_characters = (refl, refl)

abbrev accented : List ℕ
accented = b'a' ∷ 0xc3 ∷ 0xa9 ∷ []

chunk_len_progress_example :
    (0 < chunk_len accented 2)
    × (chunk_len accented 2 ≤ length accented)
    × IsBoundary accented (chunk_len accented 2)
chunk_len_progress_example = chunk_len_progress accented 2 (omega arith)
