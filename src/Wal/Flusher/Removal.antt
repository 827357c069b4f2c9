-- ===== src/Wal/Flusher/Removal.antt =====
-- src/storage/wal/mod.rs: `remove_through`, on the files of the directory in the order of their ids.
use rust_tsdb.Prelude.{
  ℕ, zero, suc, ◌+◌, ◌-◌, ◌<◌, ◌≡◌, refl, min, ◌||◌, List, [], ◌∷◌, length, leb, ltb, keep, arith,
  if◌then◌else◌,
}
use rust_tsdb.Wal.Reader.{SegmentFile}

-- The loop over `segment::list`: how many are removed, and what is left.
unfoldable pub remove_files : ℕ → List SegmentFile → ℕ × List SegmentFile
remove_files id [] = (0, [])
remove_files id (f ∷ fs) =
    let rest = remove_files id fs in
    if leb f.id id then (rest.0 + 1, rest.1) else (rest.0, f ∷ rest.1)

-- `Wal::remove_through` with the id of the active file.
unfoldable pub remove_through : ℕ → ℕ → List SegmentFile → ℕ × List SegmentFile
unfolding remove_files
remove_through active id files = remove_files (min id (active - 1)) files

-- The same loop when a call of the system fails once this many files are gone: a removal, the listing before it or
-- the sync of the directory after it.
unfoldable pub remove_some : ℕ → ℕ → List SegmentFile → List SegmentFile
remove_some n id [] = []
remove_some zero id (f ∷ fs) = f ∷ fs
remove_some (suc n) id (f ∷ fs) =
    let gone = remove_some n id fs in
    let stays = remove_some (suc n) id fs in if leb f.id id then gone else f ∷ stays

remove_files_lem :
    (active id : ℕ) (files : List SegmentFile)
    → 0 < active
    → ((remove_files (min id (active - 1)) files).1
        ≡ keep (λ f. leb active f.id || ltb id f.id) files)
      × ((remove_files (min id (active - 1)) files).0
            + length (remove_files (min id (active - 1)) files).1
          ≡ length files)
unfolding remove_files
remove_files_lem active id [] h = (refl, refl)
remove_files_lem active id (f ∷ fs) h =
    let rest = remove_files_lem active id fs h in (ground (arith, rest.0), ground (arith, rest.1))

-- When there is an active file id above 0, `remove_through` leaves exactly the files from the active one on
-- and those with an id above the one that it is given, in their order, and answers with the number
-- of the others.
pub remove_through_lem :
    (active id : ℕ) (files : List SegmentFile)
    → 0 < active
    → ((remove_through active id files).1 ≡ keep (λ f. leb active f.id || ltb id f.id) files)
      × ((remove_through active id files).0 + length (remove_through active id files).1
          ≡ length files)
unfolding remove_through
remove_through_lem active id files h = remove_files_lem active id files h
