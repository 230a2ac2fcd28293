-- ===== src/Kernel/Frames.antt =====
-- arona_kernel/src/memory.rs: the frame allocator over the boot loader's memory map. The page table
-- is hardware. A frame is the address that `PhysFrame::containing_address` takes.
pub mod Apart
mod Examples
use arona_os.Prelude.{
  ℕ, zero, suc, ◌+◌, ◌-◌, ◌/◌, ◌%◌, ◌^◌, Bool, List, [], ◌∷◌, ◌++◌, Option, get_elem?, keep,
}

-- What the allocator uses of a region: its range of addresses, and `region_type == Usable`.
pub record MemoryRegion : Type 0 where
  pub start_addr : ℕ
  pub end_addr : ℕ
  pub is_usable : Bool

pub record BootInfoFrameAllocator : Type 0 where
  pub memory_map : List MemoryRegion
  pub next : ℕ

abbrev pub init : List MemoryRegion → BootInfoFrameAllocator
init memory_map = record { memory_map = memory_map; next = 0 }

-- `count` addresses from `start` on, one for each frame.
abbrev pub steps : ℕ → ℕ → List ℕ
steps zero start = []
steps (suc count) start = start ∷ steps count (start + 4096)

-- `(start..end).step_by(4096)`
abbrev pub step_by : MemoryRegion → List ℕ
step_by r = steps ((r.end_addr - r.start_addr + 4095) / 4096) r.start_addr

abbrev pub flat_map : List MemoryRegion → List ℕ
flat_map [] = []
flat_map (r ∷ rs) = step_by r ++ flat_map rs

unfoldable pub usable_frames : List MemoryRegion → List ℕ
usable_frames memory_map = flat_map (keep (λ r. r.is_usable) memory_map)

-- `next` is a `usize` of 64 bits.
unfoldable pub allocate_frame : BootInfoFrameAllocator → BootInfoFrameAllocator × Option ℕ
allocate_frame allocator = (
  record allocator { next = (allocator.next + 1) % 2 ^ 64 },
  get_elem? (usable_frames allocator.memory_map) allocator.next,
)

-- The answer of the call that comes after `i` others.
unfoldable pub answer : ℕ → BootInfoFrameAllocator → Option ℕ
answer zero allocator = (allocate_frame allocator).1
answer (suc i) allocator = answer i (allocate_frame allocator).0
