-- ===== src/Sat/Directory/Deletes.antt =====
-- devices/sat/sat.c: `sat_delete` takes a save out of the directory.
use libslinga.Prelude.{ap, ◌⊎◌, ℕ, ◌^◌, ◌≤◌, ◌<◌, ◌≡◌, arith, List, [], ◌∷◌, false, some, ok, ◌∙◌}
use libslinga.Prelude.{sym, Bool-cases, inl, inr, if◌then◌else◌}
use native.Mathlib.Decide.{ℕ_discrete}
use mathlib.Core.List.{Memᴰ}
use mathlib.Core.List.Memᴰ
use libslinga.Memory.{Memory}
use libslinga.Sat.Partition.{PartitionInfo}
use libslinga.Sat.Blocks.Layout.{IsPartition, blocks_apart}
use libslinga.Sat.Header.{strncmp_eq}
use libslinga.Sat.Find.{starts_save}
use libslinga.Sat.Find.Laws.{header_at, is_save}
use libslinga.Sat.Find.Names.{text, strncmp_eq-text, text-strncmp_eq, starts_save_lem}
use libslinga.Sat.Delete.{sat_delete}
use libslinga.Sat.Delete.Laws.{cleared, Deletes, cleared-Deletes, find_save-sat_delete}
use libslinga.Sat.Overwrite.{deletes_it}
use libslinga.Sat.Directory.{Save, Apart, Fresh, Held, Directory, starts_it, first_inside}
use libslinga.Sat.Directory.{some_block, starts_no_other, Held-same}

-- The saves of other names.
unfoldable pub without : List ℕ → List Save → List Save
without filename [] = []
without filename (save ∷ saves) =
    let rest = without filename saves in
    if strncmp_eq 11 filename save.filename then rest else save ∷ rest

texts_differ : (a b : List ℕ) → strncmp_eq 11 a b ≡ false → Apart b a
texts_differ a b miss e = cc (miss, text-strncmp_eq 11 a b (sym e))

-- What is left was there, and has another name.
pub without-Mem :
    (filename : List ℕ) (one : Save) (saves : List Save)
    → Memᴰ one (without filename saves)
    → Memᴰ one saves × Apart one.filename filename
unfolding without
without-Mem filename one [] left = absurd (Memᴰ.not-nil left)
without-Mem filename one (save ∷ saves) left =
    elim (Bool-cases (strncmp_eq 11 filename save.filename)) [
      | inl hit ↦ later (without-Mem filename one saves (rw hit at left))
      | inr miss ↦
          by_place miss (λ rest. without-Mem filename one saves rest)
            (Memᴰ.cases_cons (rw miss at left))
    ]
  where
    later :
        Memᴰ one saves × Apart one.filename filename
        → Memᴰ one (save ∷ saves) × Apart one.filename filename
    later (before, apart) = (Memᴰ.tail before, apart)

    by_place :
        strncmp_eq 11 filename save.filename ≡ false
        → (Memᴰ one (without filename saves) → Memᴰ one saves × Apart one.filename filename)
        → (one ≡ save) ⊎ Memᴰ one (without filename saves)
        → Memᴰ one (save ∷ saves) × Apart one.filename filename
    by_place miss again (inl same) =
        (Memᴰ.head same, rw same (texts_differ filename save.filename miss))
    by_place miss again (inr rest) = later (again rest)

-- Every save is left, or has the name.
Mem-without :
    (filename : List ℕ) (one : Save) (saves : List Save)
    → Memᴰ one saves
    → (text 11 filename ≡ text 11 one.filename) ⊎ Memᴰ one (without filename saves)
unfolding without
Mem-without filename one [] before = absurd (Memᴰ.not-nil before)
Mem-without filename one (save ∷ saves) (Memᴰ.head same) =
    elim (Bool-cases (strncmp_eq 11 filename save.filename)) [
      | inl hit ↦ inl (rw same (strncmp_eq-text 11 filename save.filename hit))
      | inr miss ↦ inr (rw miss (Memᴰ.head same))
    ]
Mem-without filename one (save ∷ saves) (Memᴰ.tail before) =
    elim (Bool-cases (strncmp_eq 11 filename save.filename)) [
      | inl hit ↦ rw hit (Mem-without filename one saves before)
      | inr miss ↦ rw miss (more (Mem-without filename one saves before))
    ]
  where
    more :
        (text 11 filename ≡ text 11 one.filename) ⊎ Memᴰ one (without filename saves)
        → (text 11 filename ≡ text 11 one.filename) ⊎ Memᴰ one (save ∷ without filename saves)
    more (inl same) = inl same
    more (inr left) = inr (Memᴰ.tail left)

module _ {p : PartitionInfo} (v : IsPartition p) (small : v.count ≤ 2 ^ 16) {m : Memory}
    {saves : List Save} (d : Directory v m saves) (save : Save) (there : Memᴰ save saves) where
  abbrev h : Held v m save
  h = d.held save there

  abbrev without_it : Memory
  without_it = cleared v (h.block 0) m

  change : Deletes v (h.block 0) m without_it
  change = cleared-Deletes v (h.block 0) m

  no_start : (other : List ℕ) → is_save v without_it other (h.block 0) ≡ false
  unfolding starts_save
  no_start other = ground (arith, change.no_tag)

  -- The blocks that start a save of another name.
  names_same :
      (other : List ℕ)
      → Apart save.filename other
      → (c : ℕ) → is_save v without_it other c ≡ is_save v m other c
  names_same other apart c = elim (ℕ_discrete c (h.block 0)) [
    | yes same ↦
        rw same
          (no_start other ∙ sym (starts_no_other v small h other apart 0 (some_block v small h)))
    | no ne ↦ ap (starts_save other) (change.other_headers c ne)
  ]

  gone : (c : ℕ) → 2 ≤ c → c < v.count → is_save v without_it save.filename c ≡ false
  gone c lo hi = elim (ℕ_discrete c (h.block 0)) [
    | yes same ↦ rw same (no_start save.filename)
    | no ne ↦ elim (Bool-cases (is_save v m save.filename c)) [
      | inl hit ↦ absurd (ne (h.only c lo hi hit))
      | inr miss ↦ ap (starts_save save.filename) (change.other_headers c ne) ∙ miss
    ]
  ]

  gone_by :
      (other : List ℕ)
      → text 11 save.filename ≡ text 11 other
      → (c : ℕ) → 2 ≤ c
      → c < v.count
      → is_save v without_it other c ≡ false
  gone_by other same c lo hi = elim (Bool-cases (is_save v without_it other c)) [
    | inl hit ↦ absurd (starts_there ((starts_save_lem other (header_at without_it p c)).0 hit))
    | inr miss ↦ miss
  ]
    where
      starts_there :
          ((header_at without_it p c).tag ≡ 0x80000000)
            × (text 11 other ≡ text 11 (header_at without_it p c).savename)
          → ⊥
      starts_there (tag, named) = cc (
        (starts_save_lem save.filename (header_at without_it p c)).1 (tag, same ∙ named),
        gone c lo hi,
      )

  left-Held :
      (one : Save) → Memᴰ one saves → Apart one.filename save.filename → Held v without_it one
  left-Held one before apart =
      Held-same v small k
        (λ j i hj hi. change.others _ (λ i' lo' hi'.
          blocks_apart v (k.block j) (h.block 0) i i'
            (λ same.
              cc (starts_no_other v small k save.filename apart j hj, starts_it v small h, same))
            hi (omega (arith, v.wide))))
        (λ c lo hi. names_same one.filename (λ e. apart (sym e)) c)
    where
      k : Held v m one
      k = d.held one before

  left-Directory : Directory v without_it (without save.filename saves)
  left-Directory = record {
    held = λ one left.
        let (before, apart) = without-Mem save.filename one saves left in
        left-Held one before apart;
    complete = λ other fresh c lo hi. elim (Bool-cases (strncmp_eq 11 save.filename other)) [
      | inl hit ↦ gone_by other (strncmp_eq-text 11 save.filename other hit) c lo hi
      | inr miss ↦
          names_same other (apart other miss) c
          ∙ d.complete other (fresh_before other fresh (apart other miss)) c lo hi
    ];
  }
    where
      apart :
          (other : List ℕ) → strncmp_eq 11 save.filename other ≡ false → Apart save.filename other
      apart other miss same = texts_differ save.filename other miss (sym same)

      fresh_before :
          (other : List ℕ)
          → Fresh other (without save.filename saves)
          → Apart save.filename other
          → Fresh other saves
      fresh_before other fresh differs one before e =
          by_place (Mem-without save.filename one saves before)
        where
          by_place :
              (text 11 save.filename ≡ text 11 one.filename)
                ⊎ Memᴰ one (without save.filename saves)
              → ⊥
          by_place (inl same) = differs (same ∙ e)
          by_place (inr left) = fresh one left e

  pub sat_delete-Directory :
      let (r, m') = sat_delete (some save.filename) p m in
      (r ≡ ok tt) × Directory v m' (without save.filename saves)
  sat_delete-Directory = (
    (find_save-sat_delete v m save.filename (h.block 0) h.past_first (first_inside v small h)
        (starts_it v small h) h.only).0,
    rw
        (deletes_it v m save.filename (h.block 0) h.past_first (first_inside v small h)
          (starts_it v small h) h.only)
        left-Directory,
  )
