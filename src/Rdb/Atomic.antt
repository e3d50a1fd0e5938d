-- ===== src/Rdb/Atomic.antt =====
-- A save of src/rdb.cpp replaces the snapshot or leaves it, whatever fails on the way.
use cpp_inference_engine.Base.{
  ℕ, ◌≡◌, ◌≢◌, ◌∙◌, refl, ap, arith, Bool, true, Option, none, some, Bytes, codes, length,
  length-append, Bool-cases, inl, inr, map,
}
use cpp_inference_engine.Base.Int.{ℤ}
use cpp_inference_engine.Db.{Database}
use cpp_inference_engine.Rdb.{serialize}
use cpp_inference_engine.Rdb.Load.{done, load}
use cpp_inference_engine.Rdb.RoundTrip.{plain_table, IsStorableDatabase, load-serialize}
use cpp_inference_engine.Rdb.File.{
  FileSystem, IsPosix, Saved, tmp_of, write_out, save_to_file, load_from_file,
}

tmp_of-differs : (p : Bytes) → p ≢ tmp_of p
tmp_of-differs p e = omega (arith, length-append p (codes ".tmp"), ap length e)

module _ (fs : FileSystem) (posix : IsPosix fs) where
  -- What a save has done to the file `path`, by the error message it ends with.
  pub data Written (path text : Bytes) (d d' : fs.Disk) : Option Bytes → Type 0 where
    replaced : fs.content path d' ≡ some text → Written path text d d' none
    kept : (e : Bytes) → fs.content path d' ≡ fs.content path d → Written path text d d' (some e)

  write_out-Written :
      (path text : Bytes) (d : fs.Disk)
      → Written path text d (write_out fs path text d).0 (write_out fs path text d).1
  unfolding write_out
  write_out-Written path text d =
      let tmp = tmp_of path in
      let (d₁, opened) = fs.open_trunc tmp d in
      let (d₂, written) = fs.write tmp text d₁ in
      let same₁ = posix.open-other tmp path d (tmp_of-differs path) in
      let same₂ = posix.write-other tmp path text d₁ (tmp_of-differs path) in
      elim (Bool-cases opened) [
        | inr h ↦ rw (write_out, h) (kept _ same₁)
        | inl h ↦ elim (Bool-cases written) [
          | inr w ↦ rw (write_out, h, w) (kept _ (same₂ ∙ same₁))
          | inl w ↦ elim (Bool-cases (fs.rename tmp path d₂).1) [
            | inr m ↦
                rw (write_out, h, w, m)
                  (kept _ (posix.rename-fails tmp path path d₂ m ∙ same₂ ∙ same₁))
            | inl m ↦
                rw (write_out, h, w, m)
                  (replaced (posix.rename-moves tmp path d₂ m ∙ posix.write-all tmp text d₁ w))
          ]
        ]
      ]

  write_out-other :
      (path text q : Bytes) (d : fs.Disk)
      → q ≢ path
      → q ≢ tmp_of path
      → fs.content q (write_out fs path text d).0 ≡ fs.content q d
  unfolding write_out
  write_out-other path text q d n t =
      let tmp = tmp_of path in
      let (d₁, opened) = fs.open_trunc tmp d in
      let (d₂, written) = fs.write tmp text d₁ in
      let same₁ = posix.open-other tmp q d t in
      let same₂ = posix.write-other tmp q text d₁ t in
      elim (Bool-cases opened) [
        | inr h ↦ rw (write_out, h) same₁
        | inl h ↦ elim (Bool-cases written) [
          | inr w ↦ rw (write_out, h, w) (same₂ ∙ same₁)
          | inl w ↦ elim (Bool-cases (fs.rename tmp path d₂).1) [
            | inr m ↦ rw (write_out, h, w, m) (posix.rename-other tmp path q d₂ t n ∙ same₂ ∙ same₁)
            | inl m ↦ rw (write_out, h, w, m) (posix.rename-other tmp path q d₂ t n ∙ same₂ ∙ same₁)
          ]
        ]
      ]

  -- What a save has done to the files and to the time of the last save.
  pub data Saving (path text : Bytes) (now : ℤ) (s s' : Saved fs) : Option Bytes → Type 0 where
    saved :
        fs.content path s'.disk ≡ some text → s'.last_save ≡ now → Saving path text now s s' none
    unsaved :
        (e : Bytes)
        → fs.content path s'.disk ≡ fs.content path s.disk
        → s'.last_save ≡ s.last_save
        → Saving path text now s s' (some e)

  -- `SaveToFile` replaces the file by the bytes of `Serialize` and sets the time of the last save,
  -- with no error, or it fails with a message and leaves that file and that time as they were,
  -- whichever of the calls to the file system fails.
  pub save_to_file-Saving :
      (path : Bytes) (db : Database) (now : ℤ) (s : Saved fs)
      → Saving path
          (serialize db)
          now
          s
          (save_to_file fs path db now s).0
          (save_to_file fs path db now s).1
  unfolding save_to_file
  save_to_file-Saving path db now s =
      go (write_out fs path (serialize db) s.disk) (write_out-Written path (serialize db) s.disk)
    where
      go :
          (r : fs.Disk × Option Bytes)
          → Written path (serialize db) s.disk r.0 r.1
          → (let s' = elim r.1 as (λ _. Saved fs × Option Bytes) [
            | none ↦ (record { disk = r.0; last_save = now }, none)
            | some e ↦ (record { disk = r.0; last_save = s.last_save }, some e)
          ] in
              Saving path (serialize db) now s s'.0 s'.1)
      go (d, _) (replaced e) = saved e refl
      go (d, _) (kept e h) = unsaved e h refl

  Saving-content :
      (path text : Bytes) (now : ℤ) (s s' : Saved fs) (err : Option Bytes)
      → Saving path text now s s' err
      → err ≡ none
      → fs.content path s'.disk ≡ some text
  Saving-content path text now s s' _ (saved c l) e = c
  Saving-content path text now s s' _ (unsaved m c l) e = cc

  load_from_file_lem :
      (flips : ℕ → ℕ → Bool) (path text : Bytes) (d : fs.Disk) (old : Database)
      → fs.opens path d ≡ true
      → fs.read path d ≡ some text
      → load_from_file fs flips path d old ≡ load flips text old
  unfolding load_from_file
  load_from_file_lem flips path text d old o r = rw (load_from_file, o, r) refl

  -- If `SaveToFile` succeeds on a database that the format can hold, and the file is then opened
  -- and read, `LoadFromFile` gives back the same tables with the same values and expiry times; of
  -- a sorted set this is about its dictionary.
  pub load_from_file-save_to_file :
      (flips : ℕ → ℕ → Bool) (path : Bytes) (db old : Database) (now : ℤ) (s : Saved fs)
      (text : Bytes)
      → IsStorableDatabase db
      → (save_to_file fs path db now s).1 ≡ none
      → fs.opens path (save_to_file fs path db now s).0.disk ≡ true
      → fs.read path (save_to_file fs path db now s).0.disk ≡ some text
      → (fresh : Database) × (load_from_file fs flips path
            (save_to_file fs path db now s).0.disk
            old
          ≡ done fresh)
        × (map plain_table fresh.dbs ≡ map plain_table db.dbs)
        × (fresh.max_memory ≡ old.max_memory)
  load_from_file-save_to_file flips path db old now s text q ok o r =
      let s' = (save_to_file fs path db now s).0 in
      let c =
        Saving-content path (serialize db) now s s' (save_to_file fs path db now s).1
          (save_to_file-Saving path db now s) ok in
      let same : text ≡ serialize db = ground (arith, c, posix.read-all path text s'.disk o r) in
      let (fresh, l, p, m) = load-serialize flips db old q in
      (
        fresh,
        load_from_file_lem flips path text s'.disk old o r ∙ ap (λ t. load flips t old) same ∙ l,
        p,
        m,
      )
