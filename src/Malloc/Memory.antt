-- ===== src/Malloc/Memory.antt =====
-- The heap of hw3/src/sfmm.c. Headers, footers and the contents of allocated blocks are the words at
-- their addresses. The links of a free block are kept beside them, as are the dummy nodes of
-- `sf_free_list_heads`: a word at the place of a link stands for no memory, and the model takes it
-- that the links lead to free blocks and dummy nodes only. The functions of
-- `sfutil.c` are outside the repository: `finish` is what `sf_mem_end` returns, and `grows` says at
-- which of its values `sf_mem_grow` adds a page.
use Prim.Native.Nat.{bit_and}
use cse_320_repository.Base.{ℕ, ◌+◌, ◌-◌, ◌*◌, ◌/◌, ◌%◌, ◌==◌, Bool, false, if◌then◌else◌, update}
use cse_320_repository.Malloc.Sizes.{size_mod}

-- A pointer to a block, or to the dummy node of a free list.
pub data Ptr : Type 0 where
  block : ℕ → Ptr
  dummy : ℕ → Ptr

abbrev pub same_ptr : Ptr → Ptr → Bool
same_ptr (block a) (block b) = a == b
same_ptr (block a) (dummy j) = false
same_ptr (dummy i) (block b) = false
same_ptr (dummy i) (dummy j) = i == j

pub data Errno : Type 0 where
  no_error : Errno
  einval : Errno
  enomem : Errno

pub record Heap : Type 0 where
  pub start : ℕ
  pub finish : ℕ
  pub grows : ℕ → Bool
  pub words : ℕ → ℕ
  pub next : Ptr → Ptr
  pub prev : Ptr → Ptr
  pub sf_errno : Errno

abbrev pub page_sz : ℕ
page_sz = 8192

abbrev pub this_block_allocated : ℕ
this_block_allocated = 1

abbrev pub prev_block_allocated : ℕ
prev_block_allocated = 2

-- `header >> 4`, then `<< 4`.
unfoldable pub get_size_from_header : ℕ → ℕ
get_size_from_header header = header / 16 * 16

unfoldable pub set_word : ℕ → ℕ → Heap → Heap
set_word a w h = record h { words = update h.words a w }

unfoldable pub set_next : Ptr → Ptr → Heap → Heap
set_next p q h = record h { next = λ r. if same_ptr r p then q else h.next r }

unfoldable pub set_prev : Ptr → Ptr → Heap → Heap
set_prev p q h = record h { prev = λ r. if same_ptr r p then q else h.prev r }

unfoldable pub set_new_epilogue : Heap → Heap
set_new_epilogue h = set_word (h.finish - 8) this_block_allocated h

-- The header of a block of the size, and the same word as its footer.
unfoldable pub set_tags : (a header : ℕ) → Heap → Heap
set_tags a header h = set_word (a + get_size_from_header header - 8) header (set_word a header h)

-- Takes a block out of the list it is in.
unfoldable pub remove_block : ℕ → Heap → Heap
remove_block a h =
    let before = h.prev (block a) in
    let after = h.next (block a) in set_prev after before (set_next before after h)

-- Puts a block in front of the list `i`.
unfoldable pub insert_block : (i a : ℕ) → Heap → Heap
insert_block i a h =
    let second = h.next (dummy i) in
    set_prev (block a) (dummy i)
      (set_next (block a) second (set_prev second (block a) (set_next (dummy i) (block a) h)))

-- Makes a block the only one of the list 7.
unfoldable pub make_wilderness : ℕ → Heap → Heap
make_wilderness a h =
    set_prev (block a) (dummy 7)
      (set_next (block a) (dummy 7) (set_prev (dummy 7) (block a) (set_next (dummy 7) (block a) h)))

abbrev pub allocated_bit : ℕ → ℕ
allocated_bit header = bit_and header this_block_allocated

abbrev pub prev_bit : ℕ → ℕ
prev_bit header = bit_and header prev_block_allocated

-- The address behind `n` bytes.
abbrev pub offset : ℕ → ℕ → ℕ
offset a n = (a + n) % size_mod
