-- ===== src/Metadata.antt =====
-- libslinga/libslinga.c: `Slinga_SetSaveMetadata`. The state is the caller's struct, which keeps
-- what was set before a failure. A string argument is its characters, without the terminator, and
-- `none` is NULL.
pub mod Laws
use libslinga.Prelude.{ℕ, List, Bool, not, ltb, leb, length, Option, none, some, err, Error}
use libslinga.Prelude.Action.{Action, ◌>>◌, lift, update, reject}
use libslinga.Sat.Header.{SaveMetadata, overwrite, max_filename, max_savename, max_comment}
use libslinga.Sat.Walk.{blank_metadata}

-- MAX_SAVE_SIZE
abbrev pub max_save_size : ℕ
max_save_size = 262144

-- MAX_LANGUAGE
abbrev pub max_language : ℕ
max_language = 6

abbrev pub Fill : Type 0
Fill = Action SaveMetadata (Unit {0})

unfoldable pub set_filename : List ℕ → Fill
set_filename filename = do
  reject (ltb max_filename (length filename)) Error.invalid_parameter
  update (λ s. record s { filename = overwrite filename s.filename })

unfoldable pub set_savename : List ℕ → Fill
set_savename savename = do
  reject (ltb max_savename (length savename)) Error.invalid_parameter
  update (λ s. record s { savename = overwrite savename s.savename })

unfoldable pub set_comment : Option (List ℕ) → Fill
set_comment none = lift (err Error.invalid_parameter)
set_comment (some comment) = do
  reject (ltb max_comment (length comment)) Error.invalid_parameter
  update (λ s. record s { comment = overwrite comment s.comment })

unfoldable pub set_numbers : ℕ → ℕ → ℕ → Fill
set_numbers language timestamp data_size = do
  reject (leb max_language language) Error.invalid_parameter
  update (λ s. record s { language = language; timestamp = timestamp })
  reject (ltb max_save_size data_size) Error.invalid_parameter
  update (λ s. record s { data_size = data_size })

-- Past the test of `save_metadata`: the memset, then each field.
unfoldable pub fill_metadata :
    Option (List ℕ) → Option (List ℕ) → Option (List ℕ) → ℕ → ℕ → ℕ → Fill
unfolding set_filename set_savename set_comment set_numbers
fill_metadata (some filename) (some savename) comment language timestamp data_size = do
  update (λ s. blank_metadata)
  set_filename filename
  set_savename savename
  set_comment comment
  set_numbers language timestamp data_size
fill_metadata _ _ comment language timestamp data_size = do
  update (λ s. blank_metadata)
  lift (err Error.invalid_parameter)

-- `has_out` says that `save_metadata` is not NULL.
unfoldable pub set_save_metadata :
    Bool → Option (List ℕ) → Option (List ℕ) → Option (List ℕ) → ℕ → ℕ → ℕ → Fill
unfolding fill_metadata
set_save_metadata has_out filename savename comment language timestamp data_size = do
  reject (not has_out) Error.buffer_too_small
  fill_metadata filename savename comment language timestamp data_size
