-- ===== src/Sat/Header/Laws.antt =====
-- devices/sat/sat.c: a header as bytes and back, and the metadata read from a written header.
use libslinga.Prelude.{ℕ, ◌+◌, ◌/◌, ◌^◌, ◌<◌, ◌≡◌, refl, arith, List, [], ◌∷◌, ◌++◌, length, take}
use libslinga.Prelude.{drop, get_or, length-append, get_or-append_at, drop-append_at}
use libslinga.Prelude.{take-append_at, u8, ap, ◌∙◌}
use mathlib.Core.List.{append-nil, append_assoc}
use libslinga.Sat.Header.{StartBlockHeader, SaveMetadata, header_bytes, header_of_bytes}
use libslinga.Sat.Header.{metadata_of_raw, word_bytes, word_at}

-- The fields fit the packed struct.
pub record IsHeader (h : StartBlockHeader) : Type 0 where
  pub tag_fits : h.tag < 2 ^ 32
  pub name_length : length h.savename ≡ 11
  pub language_fits : h.language < 256
  pub comment_length : length h.comment ≡ 10
  pub timestamp_fits : h.timestamp < 2 ^ 32
  pub size_fits : h.data_size < 2 ^ 32

module _ {h : StartBlockHeader} (w : IsHeader h) where
  -- The parts behind the tag, from the last one on.
  abbrev numbers : List ℕ
  numbers = word_bytes h.timestamp ++ word_bytes h.data_size

  abbrev behind_name : List ℕ
  behind_name = h.language ∷ (h.comment ++ numbers)

  pub length-header_bytes : length (header_bytes h) ≡ 34
  unfolding header_bytes
  length-header_bytes = omega (
    arith,
    length-append {0} h.savename behind_name,
    length-append {0} h.comment numbers,
    w.name_length,
    w.comment_length,
  )

  at_language : get_or (header_bytes h) 15 0 ≡ h.language
  unfolding header_bytes
  at_language = get_or-append_at h.savename behind_name 11 0 0 (omega (arith, w.name_length))

  name_field : (j : ℕ) → take (11 + j) (drop 4 (header_bytes h)) ≡ h.savename ++ take j behind_name
  unfolding header_bytes
  name_field j = take-append_at h.savename behind_name (11 + j) j (omega (arith, w.name_length))

  comment_field : (j : ℕ) → take (10 + j) (drop 16 (header_bytes h)) ≡ h.comment ++ take j numbers
  unfolding header_bytes
  comment_field j =
      ap (take (10 + j)) (drop-append_at h.savename behind_name 12 1 (omega (arith, w.name_length)))
      ∙ take-append_at h.comment numbers (10 + j) j (omega (arith, w.comment_length))

  number_at : (i : ℕ) → get_or (header_bytes h) (26 + i) 0 ≡ get_or numbers i 0
  unfolding header_bytes
  number_at i =
      get_or-append_at (word_bytes h.tag) (h.savename ++ behind_name) (26 + i) (22 + i) 0
        (omega arith)
      ∙ get_or-append_at h.savename behind_name (22 + i) (11 + i) 0 (omega (arith, w.name_length))
      ∙ get_or-append_at (h.language ∷ []) (h.comment ++ numbers) (11 + i) (10 + i) 0 (omega arith)
      ∙ get_or-append_at h.comment numbers (10 + i) i 0 (omega (arith, w.comment_length))

  word_at-word_bytes : (n : ℕ) → n < 2 ^ 32 → word_at (word_bytes n) 0 ≡ n
  word_at-word_bytes n fits = omega arith

  exact_name : take 11 (drop 4 (header_bytes h)) ≡ h.savename
  exact_name = name_field 0 ∙ append-nil h.savename

  exact_comment : take 10 (drop 16 (header_bytes h)) ≡ h.comment
  exact_comment = comment_field 0 ∙ append-nil h.comment

  tag_word : word_at (header_bytes h) 0 ≡ h.tag
  unfolding header_bytes
  tag_word = word_at-word_bytes h.tag w.tag_fits

  timestamp_word : word_at (header_bytes h) 26 ≡ h.timestamp
  timestamp_word =
      rw (number_at 0, number_at 1, number_at 2, number_at 3)
        (word_at-word_bytes h.timestamp w.timestamp_fits)

  size_word : word_at (header_bytes h) 30 ≡ h.data_size
  size_word =
      rw (number_at 4, number_at 5, number_at 6, number_at 7)
        (word_at-word_bytes h.data_size w.size_fits)

  -- The bytes of a header that fits the struct are read back as that header.
  pub header_of_bytes-header_bytes : header_of_bytes (header_bytes h) ≡ h
  unfolding header_of_bytes
  header_of_bytes-header_bytes =
      cc (tag_word, exact_name, at_language, exact_comment, timestamp_word, size_word)

  -- Metadata read from the bytes of a header: both names are a byte too long, so the language
  -- follows the save's name and the timestamp's first byte its comment.
  pub metadata_of_raw-header_bytes :
      (old : SaveMetadata)
      → let md = metadata_of_raw old (header_bytes h) in
        (md.savename ≡ h.savename ++ (h.language ∷ 0 ∷ []))
        × (md.comment ≡ h.comment ++ (u8 (h.timestamp / 2 ^ 24) ∷ 0 ∷ drop 12 old.comment))
        × (md.language ≡ h.language)
        × (md.timestamp ≡ h.timestamp)
        × (md.data_size ≡ h.data_size)
  unfolding metadata_of_raw
  metadata_of_raw-header_bytes old = (
    rw (name_field 1, append_assoc) refl,
    rw (comment_field 1, comment_size, append_assoc, append_assoc) refl,
    ap (λ x. x.language) header_of_bytes-header_bytes,
    ap (λ x. x.timestamp) header_of_bytes-header_bytes,
    ap (λ x. x.data_size) header_of_bytes-header_bytes,
  )
    where
      stamp : List ℕ
      stamp = u8 (h.timestamp / 2 ^ 24) ∷ []

      comment_size : length ((h.comment ++ stamp) ++ (0 ∷ [])) ≡ 12
      comment_size = omega (
        arith,
        length-append {0} (h.comment ++ stamp) (0 ∷ []),
        length-append {0} h.comment stamp,
        w.comment_length,
      )
