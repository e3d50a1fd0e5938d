-- ===== src/Rdb/File.antt =====
-- `SaveToFile`, `BgSaveFork`, `FileExists` and `LoadFromFile` of src/rdb.cpp on files. The file system
-- is a parameter: its operations, and what POSIX says of them.
use cpp_inference_engine.Base.{
  ℕ, ◌≡◌, ◌≢◌, Bool, true, false, Option, none, some, ◌++◌, Bytes, codes,
}
use cpp_inference_engine.Base.Int.{ℤ}
use cpp_inference_engine.Db.{Database}
use cpp_inference_engine.Rdb.{serialize}
use cpp_inference_engine.Rdb.Load.{Loading, done, failed, load}

-- the calls that the code makes, each with whether it went well
pub record FileSystem : Type 1 where
  pub Disk : Type 0
  pub content : Bytes → Disk → Option Bytes
  -- an `ofstream` with `trunc`
  pub open_trunc : Bytes → Disk → Disk × Bool
  -- `write` and `flush` of what was just opened
  pub write : Bytes → Bytes → Disk → Disk × Bool
  pub rename : Bytes → Bytes → Disk → Disk × Bool
  -- `GetErrnoString()`
  pub errno_string : Disk → Bytes
  -- an `ifstream` opens; `read` gets all the bytes
  pub opens : Bytes → Disk → Bool
  pub read : Bytes → Disk → Option Bytes

-- What POSIX says of these calls.
pub record IsPosix (fs : FileSystem) : Type 0 where
  pub open-other :
      (p q : Bytes) (d : fs.Disk) → q ≢ p → fs.content q (fs.open_trunc p d).0 ≡ fs.content q d
  pub write-other :
      (p q s : Bytes) (d : fs.Disk) → q ≢ p → fs.content q (fs.write p s d).0 ≡ fs.content q d
  pub write-all :
      (p s : Bytes) (d : fs.Disk)
      → (fs.write p s d).1 ≡ true
      → fs.content p (fs.write p s d).0 ≡ some s
  pub rename-moves :
      (p q : Bytes) (d : fs.Disk)
      → (fs.rename p q d).1 ≡ true
      → fs.content q (fs.rename p q d).0 ≡ fs.content p d
  pub rename-other :
      (p q r : Bytes) (d : fs.Disk)
      → r ≢ p
      → r ≢ q
      → fs.content r (fs.rename p q d).0 ≡ fs.content r d
  pub rename-fails :
      (p q r : Bytes) (d : fs.Disk)
      → (fs.rename p q d).1 ≡ false
      → fs.content r (fs.rename p q d).0 ≡ fs.content r d
  pub read-all :
      (p s : Bytes) (d : fs.Disk)
      → fs.opens p d ≡ true
      → fs.read p d ≡ some s
      → fs.content p d ≡ some s

abbrev pub tmp_of : Bytes → Bytes
tmp_of path = path ++ codes ".tmp"

module _ (fs : FileSystem) where
  -- the disk, and `g_last_save`
  pub record Saved : Type 0 where
    pub disk : fs.Disk
    pub last_save : ℤ

  -- `write`, `flush` and `rename`; `none` is success
  unfoldable pub write_out : Bytes → Bytes → fs.Disk → fs.Disk × Option Bytes
  write_out path text disk =
      let tmp = tmp_of path in
      let (d₁, opened) = fs.open_trunc tmp disk in
      elim opened [
        | false ↦ (d₁, some (codes "cannot open " ++ tmp ++ codes ": " ++ fs.errno_string d₁))
        | true ↦
            let (d₂, written) = fs.write tmp text d₁ in
            elim written [
              | false ↦ (d₂, some (codes "write failed on " ++ tmp))
              | true ↦
                  let (d₃, moved) = fs.rename tmp path d₂ in
                  elim moved [
                    | false ↦ (d₃, some (codes "rename failed: " ++ fs.errno_string d₃))
                    | true ↦ (d₃, none)
                  ]
            ]
      ]

  -- `SaveToFile`: the error message, if it fails
  unfoldable pub save_to_file : Bytes → Database → ℤ → Saved → Saved × Option Bytes
  unfolding write_out
  save_to_file path db now s =
      let (d, err) = write_out path (serialize db) s.disk in
      elim err [
        | none ↦ (record { disk = d; last_save = now }, none)
        | some e ↦ (record { disk = d; last_save = s.last_save }, some e)
      ]

  -- what `fork` returns in the parent: a failure with its `errno`, or the child
  pub data Forked : Type 0 where
    no_child : Bytes → Forked
    child : ℕ → Forked

  -- `BgSaveFork` in the parent: the pid, and the bytes that the child is to write
  unfoldable pub bg_save_fork : Bytes → Database → ℤ → Forked → Saved → Saved × Loading (ℕ × Bytes)
  unfolding serialize
  bg_save_fork path db now (no_child e) s = (s, failed (codes "fork failed: " ++ e))
  bg_save_fork path db now (child pid) s = (record s { last_save = now }, done (pid, serialize db))

  -- the child of `BgSaveFork`, with its exit code
  unfoldable pub bg_child : Bytes → Bytes → fs.Disk → fs.Disk × ℕ
  unfolding write_out
  bg_child path text disk =
      let (d, err) = write_out path text disk in (d, elim err [ none ↦ 0 | some e ↦ 1 ])

  abbrev pub file_exists : Bytes → fs.Disk → Bool
  file_exists path disk = fs.opens path disk

  -- `LoadFromFile`
  unfoldable pub load_from_file : (ℕ → ℕ → Bool) → Bytes → fs.Disk → Database → Loading Database
  unfolding load
  load_from_file flips path disk db = elim (fs.opens path disk) [
    | false ↦ failed (codes "cannot open " ++ path)
    | true ↦ elim (fs.read path disk) [
      | none ↦ failed (codes "short read on " ++ path)
      | some text ↦ load flips text db
    ]
  ]
