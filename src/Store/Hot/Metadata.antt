-- ===== src/Store/Hot/Metadata.antt =====
-- Metadata of the runtimes: a reader sees the old file of a version or all of the new one, and the listing
-- is that of the versions that can be read.
use polkadot_indexer_framerw.Common.{
  ℕ, suc, ◌+◌, ◌-◌, ◌/◌, ◌%◌, ◌^◌, ◌≤◌, ◌<◌, ◌≡◌, refl, sym, ap, ◌∙◌, ◌≢◌, inl, inr, Bool, true,
  false, ◌||◌, Option, none, some, List, [], ◌∷◌, ◌++◌, append_assoc, arith, ltb, leb, ◌==◌,
  if◌then◌else◌, lt→ltb, leb→le, ==_iff, ==_refl, Bool-cases, some_inj, length, All, length-append,
  drop-append,
}
use polkadot_indexer_framerw.Store.Layout.{digits, list_eq, strip_suffix}
use polkadot_indexer_framerw.Store.Layout.Names.{
  list_eq_iff, digits-IsDigit, parse_digits-digits, parse_u64-digits, strip_suffix-append,
}
use polkadot_indexer_framerw.Store.Hot.{
  Directory, and_version, archived_runtimes, get_metadata, in_u32, insert_version, metadata_name,
  partial_name, put_metadata, read_file, remove_file, rename_file, scale_suffix, sort_versions,
  stem_version, version_of, versions_in, write_file, write_partial, renamed,
}

list_eq_both : (a b c : List ℕ) → list_eq a c ≡ true → list_eq b c ≡ true → list_eq a b ≡ true
list_eq_both a b c e f = (list_eq_iff a b).1 ((list_eq_iff a c).0 e ∙ sym ((list_eq_iff b c).0 f))

read_file-write :
    (new name bytes : List ℕ) (dir : Directory)
    → read_file name (write_file new bytes dir)
      ≡ (if list_eq new name then some bytes else read_file name dir)
unfolding read_file write_file
read_file-write new name bytes [] = refl
read_file-write new name bytes ((other, old) ∷ dir) = elim (Bool-cases (list_eq other new)) [
  | inl same ↦
      let e = ap (λ n. list_eq n name) ((list_eq_iff other new).0 same) in
      rw same (ground (arith, e))
  | inr differ ↦
      rw differ
        (ground (arith, differ, list_eq_both other new name, read_file-write new name bytes dir))
]

read_file-remove :
    (gone name : List ℕ) (dir : Directory)
    → list_eq gone name ≡ false
    → read_file name (remove_file gone dir) ≡ read_file name dir
unfolding read_file remove_file
read_file-remove gone name [] ne = refl
read_file-remove gone name ((other, bytes) ∷ dir) ne = elim (Bool-cases (list_eq other gone)) [
  | inl same ↦
      let e = ap (λ n. list_eq n name) ((list_eq_iff other gone).0 same) in
      rw same (ground (arith, e, ne, read_file-remove gone name dir ne))
  | inr differ ↦ rw differ (ground (arith, read_file-remove gone name dir ne))
]

-- A name with another ending of the same length is not stripped.
strip_suffix-other :
    (stem tail suffix : List ℕ)
    → length tail ≡ length suffix
    → list_eq tail suffix ≡ false
    → strip_suffix (stem ++ tail) suffix ≡ none
unfolding strip_suffix
strip_suffix-other stem tail suffix same differ =
    let n : length (stem ++ tail) - length suffix ≡ length stem =
      omega (arith, length-append stem tail) in
    rw (n, drop-append stem tail, differ) (ground arith)

digits-ne-nil : (k n : ℕ) → digits (suc k) n ≢ []
unfolding digits
digits-ne-nil k n e = elim (Bool-cases (ltb n 10)) [
  | inl small ↦ omega (arith, ap length (rw small at e))
  | inr large ↦
      omega
        (arith, ap length (rw large at e), length-append (digits k (n / 10)) ((48 + n % 10) ∷ []))
]

version_of-metadata : (v : ℕ) → v < 2 ^ 32 → version_of (metadata_name v) ≡ some v
unfolding version_of metadata_name
version_of-metadata v small =
    ap stem_version (strip_suffix-append (digits 10 v) scale_suffix)
    ∙ ap in_u32 (
        parse_u64-digits (digits 10 v) (digits-IsDigit 10 v) (digits-ne-nil 9 v)
        ∙ parse_digits-digits 10 v (omega arith) (omega arith))
    ∙ rw (lt→ltb v (2 ^ 32) small) refl

abbrev partial_front : List ℕ
partial_front = scale_suffix ++ (b'.' ∷ b'p' ∷ [])

abbrev partial_end : List ℕ
partial_end = b'a' ∷ b'r' ∷ b't' ∷ b'i' ∷ b'a' ∷ b'l' ∷ []

version_of-partial : (v : ℕ) → version_of (partial_name v) ≡ none
unfolding version_of partial_name list_eq
version_of-partial v =
    ap (λ n. stem_version (strip_suffix n scale_suffix))
      (sym (append_assoc (digits 10 v) partial_front partial_end))
    ∙ ap stem_version
        (strip_suffix-other (digits 10 v ++ partial_front) partial_end scale_suffix refl refl)

partial_name-other : (v w : ℕ) → w < 2 ^ 32 → list_eq (partial_name v) (metadata_name w) ≡ false
partial_name-other v w small = elim (Bool-cases (list_eq (partial_name v) (metadata_name w))) [
  | inr differ ↦ differ
  | inl same ↦ absurd (
      ground (
        arith,
        version_of-partial v,
        version_of-metadata w small,
        ap version_of ((list_eq_iff (partial_name v) (metadata_name w)).0 same),
      ))
]

metadata_name-inj :
    (v w : ℕ) → v < 2 ^ 32 → w < 2 ^ 32 → list_eq (metadata_name v) (metadata_name w) ≡ (v == w)
metadata_name-inj v w small small' =
    elim (Bool-cases (list_eq (metadata_name v) (metadata_name w))) [
      | inl same ↦
          let e : v ≡ w = some_inj (
            sym (version_of-metadata v small)
            ∙ ap version_of ((list_eq_iff (metadata_name v) (metadata_name w)).0 same)
            ∙ version_of-metadata w small') in
          same ∙ sym ((==_iff v w).1 e)
      | inr differ ↦ elim (Bool-cases (v == w)) [
        | inr apart ↦ differ ∙ sym apart
        | inl is ↦
            let e = ap metadata_name ((==_iff v w).0 is) in
            absurd (ground (arith, differ, (list_eq_iff (metadata_name v) (metadata_name w)).1 e))
      ]
    ]

-- Nothing that is written under the temporary name is read as the metadata of a version.
get_metadata-partial :
    (v w : ℕ) (part : List ℕ) (dir : Directory)
    → w < 2 ^ 32
    → get_metadata w (write_partial v part dir) ≡ get_metadata w dir
unfolding get_metadata write_partial
get_metadata-partial v w part dir small =
    read_file-write (partial_name v) (metadata_name w) part dir
    ∙ rw (partial_name-other v w small) refl

put_metadata-writes :
    (v : ℕ) (scale : List ℕ) (dir : Directory)
    → put_metadata v scale dir
      ≡ write_file
          (metadata_name v)
          scale
          (remove_file (partial_name v) (write_partial v scale dir))
unfolding put_metadata write_partial rename_file
put_metadata-writes v scale dir =
    let p = partial_name v in
    let there : read_file p (write_file p scale dir) ≡ some scale =
      read_file-write p p scale dir ∙ rw ((list_eq_iff p p).1 refl) refl in
    ap (renamed p (metadata_name v) (write_file p scale dir)) there

-- What a reader sees of `put_metadata` for a version, both being `u32`s: while the temporary file is
-- written, however much of it is there, every version reads as it did; after the rename this version
-- reads as all of the new bytes, and every other as it did.
pub put_metadata-get :
    (v w : ℕ) (scale part : List ℕ) (dir : Directory)
    → v < 2 ^ 32
    → w < 2 ^ 32
    → (get_metadata w (write_partial v part dir) ≡ get_metadata w dir)
      × (get_metadata w (put_metadata v scale dir)
          ≡ (if v == w then some scale else get_metadata w dir))
unfolding get_metadata
put_metadata-get v w scale part dir small small' = (
  get_metadata-partial v w part dir small',
  ap (read_file (metadata_name w)) (put_metadata-writes v scale dir)
      ∙ read_file-write (metadata_name v) (metadata_name w) scale
          (remove_file (partial_name v) (write_partial v scale dir))
      ∙ rw
          (
            metadata_name-inj v w small small',
            read_file-remove (partial_name v) (metadata_name w) (write_partial v scale dir)
                (partial_name-other v w small'),
            get_metadata-partial v w scale dir small',
          )
          refl,
)

-- Whether a version is among those of a list.
abbrev pub listed : ℕ → List ℕ → Bool
listed w [] = false
listed w (v ∷ versions) = (v == w) || listed w versions

abbrev pub Ascending : List ℕ → Type 0
Ascending [] = Unit
Ascending (v ∷ versions) = All (λ w. v ≤ w) versions × Ascending versions

listed-insert :
    (w v : ℕ) (versions : List ℕ)
    → listed w (insert_version v versions) ≡ ((v == w) || listed w versions)
unfolding insert_version
listed-insert w v [] = refl
listed-insert w v (u ∷ versions) = ground (arith, listed-insert w v versions)

listed-sort : (w : ℕ) (versions : List ℕ) → listed w (sort_versions versions) ≡ listed w versions
unfolding sort_versions
listed-sort w [] = refl
listed-sort w (v ∷ versions) =
    listed-insert w v (sort_versions versions) ∙ ap (λ b. (v == w) || b) (listed-sort w versions)

insert-All :
    (P : ℕ → Type 0) (v : ℕ) (versions : List ℕ)
    → P v
    → All P versions
    → All P (insert_version v versions)
unfolding insert_version
insert-All P v [] p ps = (p, tt)
insert-All P v (w ∷ versions) p ps = elim (Bool-cases (leb v w)) [
  | inl le ↦ rw le (p, ps)
  | inr gt ↦ rw gt (ps.0, insert-All P v versions p ps.1)
]

below-All :
    (v w : ℕ) (versions : List ℕ) → v ≤ w → All (λ u. w ≤ u) versions → All (λ u. v ≤ u) versions
below-All v w [] le h = tt
below-All v w (u ∷ versions) le h = (omega (arith, h.0, le), below-All v w versions le h.1)

insert-Ascending :
    (v : ℕ) (versions : List ℕ) → Ascending versions → Ascending (insert_version v versions)
unfolding insert_version
insert-Ascending v [] h = (tt, tt)
insert-Ascending v (w ∷ versions) h = elim (Bool-cases (leb v w)) [
  | inl le ↦
      let first : v ≤ w = leb→le v w le in rw le ((first, below-All v w versions first h.0), h)
  | inr gt ↦
      rw gt (
        insert-All (λ u. w ≤ u) v versions (ground (arith, gt)) h.0,
        insert-Ascending v versions h.1,
      )
]

sort-Ascending : (versions : List ℕ) → Ascending (sort_versions versions)
unfolding sort_versions
sort-Ascending [] = tt
sort-Ascending (v ∷ versions) =
    insert-Ascending v (sort_versions versions) (sort-Ascending versions)

and_version-listed :
    (w : ℕ) (read : Option ℕ) (versions : List ℕ)
    → listed w versions ≡ true
    → listed w (and_version read versions) ≡ true
and_version-listed w none versions h = h
and_version-listed w (some v) versions h = ground (arith, h)

-- A file that is there is listed by its version.
listed-versions :
    (w : ℕ) (name bytes : List ℕ) (dir : Directory)
    → version_of name ≡ some w
    → read_file name dir ≡ some bytes
    → listed w (versions_in dir) ≡ true
unfolding versions_in read_file
listed-versions w name bytes [] e there = absurd (ground (arith, there))
listed-versions w name bytes ((other, held) ∷ dir) e there =
    elim (Bool-cases (list_eq other name)) [
      | inl same ↦
          let named : version_of other ≡ some w =
            ap version_of ((list_eq_iff other name).0 same) ∙ e in
          rw named (ground arith)
      | inr differ ↦
          and_version-listed w (version_of other) (versions_in dir)
            (listed-versions w name bytes dir e (rw (differ, read_file) at there))
    ]

-- The listing of the runtimes is ascending, and every version, a `u32`, whose metadata can be read is in
-- it; in particular one that has just been put.
pub archived_runtimes_lem :
    (dir : Directory)
    → Ascending (archived_runtimes dir)
      × ((w : ℕ) (bytes : List ℕ)
          → w < 2 ^ 32
          → get_metadata w dir ≡ some bytes
          → listed w (archived_runtimes dir) ≡ true)
      × ((v : ℕ) (scale : List ℕ)
          → v < 2 ^ 32
          → listed v (archived_runtimes (put_metadata v scale dir)) ≡ true)
unfolding archived_runtimes get_metadata
archived_runtimes_lem dir =
    let shown : (there : Directory) (w : ℕ) (bytes : List ℕ)
        → w < 2 ^ 32
        → read_file (metadata_name w) there ≡ some bytes
        → listed w (sort_versions (versions_in there)) ≡ true =
      λ there w bytes small e.
        listed-sort w (versions_in there)
        ∙ listed-versions w (metadata_name w) bytes there (version_of-metadata w small) e in
    (
      sort-Ascending (versions_in dir),
      shown dir,
      λ v scale small.
          shown (put_metadata v scale dir) v scale small
            ((put_metadata-get v v scale [] dir small small).1 ∙ rw (==_refl v) refl),
    )
