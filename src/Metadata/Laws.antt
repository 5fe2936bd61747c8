-- ===== src/Metadata/Laws.antt =====
-- libslinga/libslinga.c: when `Slinga_SetSaveMetadata` succeeds, and what it leaves in the struct.
use libslinga.Prelude.{ℕ, zero, suc, ◌≤◌, ◌<◌, ◌≡◌, ◌≢◌, ◌⊎◌, refl, arith, List, [], ◌∷◌, ◌++◌}
use libslinga.Prelude.{true, ltb, leb, length, some, Result, ok, err, Error, inl, inr, Bool-cases}
use libslinga.Prelude.{replicate, drop}
use libslinga.Sat.Header.{SaveMetadata, overwrite, c_string}
use libslinga.Metadata.{set_save_metadata}

-- A string of a caller: it ends at its first 0.
abbrev pub IsText : List ℕ → Type 0
IsText [] = Unit
IsText (c ∷ cs) = (c ≢ 0) × IsText cs

c_string-zeros : (n k : ℕ) → c_string (drop k (replicate n 0)) ≡ []
unfolding c_string
c_string-zeros zero zero = refl
c_string-zeros zero (suc k) = refl
c_string-zeros (suc n) zero = refl
c_string-zeros (suc n) (suc k) = c_string-zeros n k

c_string-append :
    (text rest : List ℕ) → IsText text → c_string rest ≡ [] → c_string (text ++ rest) ≡ text
unfolding c_string
c_string-append [] rest w h = h
c_string-append (c ∷ cs) rest w h = ground (arith, c_string-append cs rest w.1 h)

-- The metadata hold the arguments.
pub record Holds (filename savename comment : List ℕ) (language timestamp data_size : ℕ)
    (s : SaveMetadata) : Type 0 where
  pub filename_text : c_string s.filename ≡ filename
  pub savename_text : c_string s.savename ≡ savename
  pub comment_text : c_string s.comment ≡ comment
  pub language_is : s.language ≡ language
  pub timestamp_is : s.timestamp ≡ timestamp
  pub data_size_is : s.data_size ≡ data_size

module _ (filename savename comment : List ℕ) (language timestamp data_size : ℕ) where
  -- The limits on the arguments.
  abbrev pub Allowed : Type 0
  Allowed =
      (length filename ≤ 32)
      × (length savename ≤ 12)
      × (length comment ≤ 11)
      × (language < 6)
      × (data_size ≤ 262144)

  abbrev pub Outcome : Result (Unit {0}) × SaveMetadata → Type 0
  Outcome out =
      (Allowed
        × (out.0 ≡ ok tt)
        × Holds filename savename comment language timestamp data_size out.1)
      ⊎ ((¬ Allowed) × (out.0 ≡ err Error.invalid_parameter))

  -- `set_save_metadata`, of texts without 0, succeeds exactly when the file name has at most 32
  -- characters, the save's name 12 and the comment 11, the language is below 6 and the size at most
  -- 262144; then the struct holds the arguments, whatever it held before. Otherwise it says
  -- SLINGA_INVALID_PARAMETER.
  pub set_save_metadata-Outcome :
      (s : SaveMetadata)
      → IsText filename
      → IsText savename
      → IsText comment
      → Outcome (
          set_save_metadata true
            (some filename)
            (some savename)
            (some comment)
            language
            timestamp
            data_size
            s)
  unfolding set_save_metadata
  set_save_metadata-Outcome s wf ws wc = elim (Bool-cases (ltb 32 (length filename))) [
    | inl long ↦ rw long (inr (λ a. ground arith, refl))
    | inr filename_fits ↦ rw filename_fits (elim (Bool-cases (ltb 12 (length savename))) [
      | inl long ↦ rw long (inr (λ a. ground arith, refl))
      | inr savename_fits ↦ rw savename_fits (elim (Bool-cases (ltb 11 (length comment))) [
        | inl long ↦ rw long (inr (λ a. ground arith, refl))
        | inr comment_fits ↦ rw comment_fits (elim (Bool-cases (leb 6 language)) [
          | inl bad ↦ rw bad (inr (λ a. ground arith, refl))
          | inr good ↦ rw good (elim (Bool-cases (ltb 262144 data_size)) [
            | inl large ↦ rw large (inr (λ a. ground arith, refl))
            | inr small ↦ rw small (
                inl (
                  ground arith,
                  refl,
                  record {
                    filename_text = text_array 33 filename wf;
                    savename_text = text_array 13 savename ws;
                    comment_text = text_array 13 comment wc;
                    language_is = refl;
                    timestamp_is = refl;
                    data_size_is = refl;
                  },
                ))
          ])
        ])
      ])
    ])
  ]
    where
      text_array :
          (n : ℕ) (text : List ℕ) → IsText text → c_string (overwrite text (replicate n 0)) ≡ text
      text_array n text w = c_string-append text _ w (c_string-zeros n (length text))
