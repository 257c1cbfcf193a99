-- ===== src/Types.antt =====
-- The data of common/fs_types.h and server/storage/storage_types.h: block keys, slices and the
-- trunk space behind a slice.
use faststore.Prelude.{ℕ, ◌+◌, ◌*◌, Bool, ◌&&◌, ◌==◌}

-- FS_FILE_BLOCK_SIZE
abbrev pub fs_file_block_size : ℕ
fs_file_block_size = 4 * 1024 * 1024

-- Object ids and block offsets are not negative, so an `int64_t` is a number here.
pub record FsBlockKey : Type 0 where
  pub oid : ℕ
  pub offset : ℕ
  pub hash_code : ℕ

pub record FsSliceSize : Type 0 where
  pub offset : ℕ
  pub length : ℕ

pub record FsBlockSliceKeyInfo : Type 0 where
  pub block : FsBlockKey
  pub slice : FsSliceSize

-- FS_BLOCK_KEY_EQUAL
abbrev pub fs_block_key_equal : FsBlockKey → FsBlockKey → Bool
fs_block_key_equal a b = (a.oid == b.oid) && (a.offset == b.offset)

pub record FsTrunkIdInfo : Type 0 where
  pub id : ℕ
  pub subdir : ℕ

-- `store` is the index of the store path that the pointer of the source leads to.
pub record FsTrunkSpaceInfo : Type 0 where
  pub store : ℕ
  pub id_info : FsTrunkIdInfo
  pub offset : ℕ
  pub size : ℕ

-- OB_SLICE_TYPE_FILE and OB_SLICE_TYPE_ALLOC
pub data ObSliceType : Type 0 where
  file alloc : ObSliceType

-- `ob` is the key of the object block that the pointer of the source leads to. The fields that only
-- serve the object allocator (`ref_count`, `dlink`, `allocator`) are left out.
pub record ObSliceEntry : Type 0 where
  pub ob : FsBlockKey
  pub slice_type : ObSliceType
  pub ssize : FsSliceSize
  pub space : FsTrunkSpaceInfo

-- The first byte after a slice, `ssize.offset + ssize.length`.
abbrev pub end_of : ObSliceEntry → ℕ
end_of s = s.ssize.offset + s.ssize.length
