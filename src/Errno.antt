-- ===== src/Errno.antt =====
-- The error numbers of <errno.h> that the server code returns; 0 is success.
use faststore.Prelude.{ℕ}

abbrev pub enoent : ℕ
enoent = 2

abbrev pub eintr : ℕ
eintr = 4

abbrev pub eagain : ℕ
eagain = 11

abbrev pub enomem : ℕ
enomem = 12

abbrev pub eexist : ℕ
eexist = 17

abbrev pub enospc : ℕ
enospc = 28

abbrev pub einval : ℕ
einval = 22

abbrev pub ebusy : ℕ
ebusy = 16
