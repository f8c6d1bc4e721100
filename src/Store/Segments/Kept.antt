-- ===== src/Store/Segments/Kept.antt =====
-- Moving one segment: every tier shows what it showed, wherever the copy or the removal breaks off.
use polkadot_indexer_framerw.Common.{
  ℕ, ◌≡◌, refl, sym, ap, subst, ◌∙◌, ◌≢◌, ◌⊎◌, inl, inr, true, false, none, some, List, arith,
  Option-cases,
}
use polkadot_indexer_framerw.Common.Result.{ok, err}
use polkadot_indexer_framerw.Store.Error.{StoreError, io, no_cold_tier}
use polkadot_indexer_framerw.Store.Segment.Format.{Crc32, Log}
use polkadot_indexer_framerw.Store.Segment.{Disk}
use polkadot_indexer_framerw.Store.Segments.{
  Segments, cold_at, disk_at, files_of_disk, locate, locate_in, reader_for, Tier,
}
use polkadot_indexer_framerw.Store.Segments.Getting.{Shows}
use polkadot_indexer_framerw.Store.Segments.Holding.{disk_with}
use polkadot_indexer_framerw.Store.Segments.Moving.{
  Copied, Faithful, copied-Copied, copied-absent, copied-ok, copy_sidecar-same, copy_verified-none,
  copy_verified-same,
}
use polkadot_indexer_framerw.Store.Segments.Tiers.{
  Media, Tiered, copied, copy_sidecar, copy_to_cold, copy_verified, copy_into,
}

cold_at-some : (j : ℕ) (cold : Tier) → cold_at j (some cold) ≡ disk_at j cold
unfolding cold_at
cold_at-some j cold = refl

-- What a hot segment shows are the files of the hot tier.
pub located_hot :
    (hot_files cold_files disk : Disk)
    → locate_in hot_files cold_files ≡ some (disk, true)
    → hot_files ≡ disk
unfolding locate_in
located_hot hot_files cold_files disk e = elim (Option-cases hot_files.seg) [
  | inl gone ↦ elim (Option-cases cold_files.seg) [
    | inl none_there ↦ ground arith
    | inr (bytes, there) ↦ ground arith
  ]
  | inr (bytes, there) ↦ ground arith
]

-- What a cold segment shows are the files of the cold tier, and the hot tier has none.
pub located_cold :
    (hot_files cold_files disk : Disk)
    → locate_in hot_files cold_files ≡ some (disk, false)
    → (hot_files.seg ≡ none) × (cold_files ≡ disk)
unfolding locate_in
located_cold hot_files cold_files disk e = elim (Option-cases hot_files.seg) [
  | inl gone ↦ elim (Option-cases cold_files.seg) [
    | inl none_there ↦ ground arith
    | inr (bytes, there) ↦ ground arith
  ]
  | inr (bytes, there) ↦ ground arith
]

module _ (crc : Crc32) (j : ℕ) (log : Log) (s t : Segments) where
  -- A segment that is shown hot stays so, whatever comes to the cold tier.
  pub Shows-hot :
      disk_at j t.hot ≡ disk_at j s.hot
      → (reader_for j t.reader ≡ none) ⊎ (reader_for j t.reader ≡ reader_for j s.reader)
      → Shows crc j log true s
      → Shows crc j log true t
  unfolding locate locate_in
  Shows-hot same readers h =
      let disk = disk_with crc log h.junk h.torn in
      let there : disk_at j t.hot ≡ disk =
        same ∙ located_hot (disk_at j s.hot) (cold_at j s.cold) disk h.located in
      record {
        junk = h.junk;
        torn = h.torn;
        located = ap (λ d. locate_in d (cold_at j t.cold)) there;
        stored = ap files_of_disk there;
        cut = h.cut;
        fits = h.fits;
        reader = elim readers [
          | inl gone ↦ inl gone
          | inr e ↦ elim h.reader [ inl e' ↦ inl (e ∙ e') | inr e' ↦ inr (e ∙ e') ]
        ];
      }

  -- A segment whose file left the hot tier is shown from its copy.
  pub Shows-moved :
      (h : Shows crc j log true s)
      → (disk_at j t.hot).seg ≡ none
      → cold_at j t.cold ≡ disk_with crc log h.junk h.torn
      → reader_for j t.reader ≡ none
      → Shows crc j log false t
  unfolding locate locate_in
  Shows-moved h gone there shut = record {
    junk = h.junk;
    torn = h.torn;
    located = rw gone (ap (λ (d : Disk). locate_in (record { seg = none; idx = none }) d) there);
    stored = ap files_of_disk there;
    cut = h.cut;
    fits = h.fits;
    reader = inl shut;
  }

module _ (crc : Crc32) (media : Media) (i : ℕ) (s : Segments) where
  abbrev pub after_copy : Segments
  after_copy = (copy_to_cold crc media i s).1

  -- The files and handles of a store after a copy.
  pub record AfterCopy (t : Segments) : Type 0 where
    pub same_size : t.segment_size ≡ s.segment_size
    pub same_hot : t.hot ≡ s.hot
    pub same_writer : t.writer ≡ s.writer
    pub same_reader : t.reader ≡ s.reader
    pub others : (j : ℕ) → i ≢ j → cold_at j t.cold ≡ cold_at j s.cold

  copy_to_cold-none : s.cold ≡ none → copy_to_cold crc media i s ≡ (err no_cold_tier, s)
  unfolding copy_to_cold copy_into
  copy_to_cold-none e = ap (copy_into crc media i s) e

  copy_to_cold-some :
      (cold : Tier)
      → s.cold ≡ some cold
      → copy_to_cold crc media i s
        ≡ copied i cold s
            (copy_verified crc (media.landing i true) (disk_at i s.hot).seg (disk_at i cold).seg)
            (copy_sidecar crc (media.landing i false) (disk_at i s.hot).idx (disk_at i cold).idx)
  unfolding copy_to_cold copy_into
  copy_to_cold-some cold e = ap (copy_into crc media i s) e

  Copied-AfterCopy :
      (cold : Tier) (t : Segments) → s.cold ≡ some cold → Copied i cold s t → AfterCopy t
  Copied-AfterCopy cold t e c = record {
    same_size = c.same_size;
    same_hot = c.same_hot;
    same_writer = c.same_writer;
    same_reader = c.same_reader;
    others = λ j ne. c.others j ne ∙ sym (ap (cold_at j) e ∙ cold_at-some j cold);
  }

  pub copy_to_cold-After : AfterCopy after_copy
  copy_to_cold-After = elim (Option-cases s.cold) [
    | inl e ↦ subst AfterCopy (sym (ap (λ p. p.1) (copy_to_cold-none e))) (record {
      same_size = refl;
      same_hot = refl;
      same_writer = refl;
      same_reader = refl;
      others = λ j ne. refl;
    })
    | inr (cold, e) ↦
        subst AfterCopy (sym (ap (λ p. p.1) (copy_to_cold-some cold e)))
          (Copied-AfterCopy cold _ e (copied-Copied i cold s _ _))
  ]

  -- Without a hot segment the copy fails, and the cold tier is as it was.
  pub copy_to_cold-absent :
      (disk_at i s.hot).seg ≡ none
      → ((e : StoreError) × ((copy_to_cold crc media i s).0 ≡ err e))
        × (cold_at i after_copy.cold ≡ cold_at i s.cold)
  copy_to_cold-absent gone = elim (Option-cases s.cold) [
    | inl e ↦ (
      (no_cold_tier, ap (λ p. p.0) (copy_to_cold-none e)),
      ap (λ p. cold_at i p.1.cold) (copy_to_cold-none e),
    )
    | inr (cold, e) ↦
        let idx =
          copy_sidecar crc (media.landing i false) (disk_at i s.hot).idx (disk_at i cold).idx in
        let went : copy_to_cold crc media i s ≡ copied i cold s (err io, (disk_at i cold).seg) idx =
          copy_to_cold-some cold e
          ∙ ap (λ src. copied i cold s src idx)
              (ap (λ f. copy_verified crc (media.landing i true) f (disk_at i cold).seg) gone
                ∙ copy_verified-none crc (media.landing i true) (disk_at i cold).seg) in
        let found = copied-absent i cold s io (disk_at i cold).seg idx refl in
        (
          (io, ap (λ p. p.0) went ∙ found.0),
          ap (λ p. cold_at i p.1.cold) went
              ∙ found.1
              ∙ sym (ap (cold_at i) e ∙ cold_at-some i cold),
        )
  ]

  -- A copy that succeeds is the hot segment, byte for byte.
  pub copy_to_cold-same :
      (seg idx : List ℕ) (tiered : Tiered)
      → Faithful crc media
      → disk_at i s.hot ≡ record { seg = some seg; idx = some idx }
      → (copy_to_cold crc media i s).0 ≡ ok tiered
      → cold_at i after_copy.cold ≡ record { seg = some seg; idx = some idx }
  copy_to_cold-same seg idx tiered good as_is done = elim (Option-cases s.cold) [
    | inl e ↦ absurd (ground (arith, sym (ap (λ p. p.0) (copy_to_cold-none e)) ∙ done))
    | inr (cold, e) ↦
        let dst = disk_at i cold in
        let seg_copy = copy_verified crc (media.landing i true) (some seg) dst.seg in
        let idx_copy = copy_sidecar crc (media.landing i false) (some idx) dst.idx in
        let went : copy_to_cold crc media i s ≡ copied i cold s seg_copy idx_copy =
          copy_to_cold-some cold e
          ∙ ap
              (λ d.
                copied i cold s (copy_verified crc (media.landing i true) d.seg dst.seg)
                  (copy_sidecar crc (media.landing i false) d.idx dst.idx))
              as_is in
        let ((r, seg_ok), (n, idx_ok), there) =
          copied-ok i cold s seg_copy idx_copy tiered (sym (ap (λ p. p.0) went) ∙ done) in
        ap (λ p. cold_at i p.1.cold) went ∙ there ∙ λ k. record {
          seg =
              copy_verified-same crc (media.landing i true) seg dst.seg r (good.detects i true)
                seg_ok k;
          idx =
              copy_sidecar-same crc (media.landing i false) idx dst.idx n (good.detects i false)
                idx_ok k;
        }
  ]
