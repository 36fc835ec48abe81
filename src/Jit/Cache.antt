-- ===== src/Jit/Cache.antt =====
-- src/jit/cache.rs: the entry of the code cache, one pointer. Loads and installs are atomic: each is one
-- step of a sequence. A pointer is its address, and 0 is null.
use armx.Base.{ℕ}

pub record CodeCache : Type 0 where
  pub entry : ℕ

abbrev pub default : CodeCache
default = record { entry = 0 }

abbrev pub load : CodeCache → ℕ
load cache = cache.entry

abbrev pub install : CodeCache → ℕ → CodeCache
install cache ptr = record cache { entry = ptr }
