-- ===== src/Memory/Lru.antt =====
-- The list of buffers that are allocated on a device and locked by no request, by least recent use:
-- MemoryManager::Device and DeviceEntry of src/runtime/memory_manager.cpp. The list is linked through
-- the entries of the buffers; a pointer to a buffer is its number.
pub mod Links
pub mod Writes
pub mod Listing
pub mod Members
pub mod Usage
pub mod Refinement
use kmm.Prelude.{
  ℕ, ◌+◌, ◌-◌, ◌%◌, ◌^◌, Bool, true, false, Option, none, some, ltb, ◌==◌, if◌then◌else◌,
}
use kmm.Prelude.Results.{Result, ok, ◌>>=◌, ◌>>◌, kmm_assert}

pub record LruEntry : Type 0 where
  pub is_allocated : Bool
  pub num_allocation_locks : ℕ
  pub lru_older : Option ℕ
  pub lru_newer : Option ℕ

pub record DeviceLru : Type 0 where
  pub entries : ℕ → LruEntry
  pub lru_oldest : Option ℕ
  pub lru_newest : Option ℕ

abbrev pub put : (ℕ → LruEntry) → ℕ → LruEntry → ℕ → LruEntry
put f b e c = if b == c then e else f c

-- The two assertions that start both operations on the list.
abbrev pub assert_unlocked : LruEntry → Result (Unit {0})
assert_unlocked e = kmm_assert e.is_allocated >> kmm_assert (e.num_allocation_locks == 0)

-- A write to the newer link of a neighbour, or to the device's oldest if there is none; and a write
-- to the older link, or to the newest.
abbrev pub set_newer : Option ℕ → Option ℕ → DeviceLru → DeviceLru
set_newer (some p) v d = record d {
  entries = put d.entries p (record (d.entries p) { lru_newer = v });
}
set_newer none v d = record d { lru_oldest = v }

abbrev pub set_older : Option ℕ → Option ℕ → DeviceLru → DeviceLru
set_older (some p) v d = record d {
  entries = put d.entries p (record (d.entries p) { lru_older = v });
}
set_older none v d = record d { lru_newest = v }

unfoldable pub link_newest : ℕ → DeviceLru → DeviceLru
link_newest b d =
    let prev = d.lru_newest in
    let linked = set_newer prev (some b) d in
    record linked {
      entries =
          put linked.entries b (record (linked.entries b) { lru_older = prev; lru_newer = none });
      lru_newest = some b;
    }

unfoldable pub add_to_lru : ℕ → DeviceLru → Result DeviceLru
unfolding link_newest
add_to_lru b d = assert_unlocked (d.entries b) >> ok (link_newest b d)

-- The source calls the newer neighbour `prev` and the older one `next`.
unfoldable pub unlink : ℕ → DeviceLru → DeviceLru
unlink b d =
    let prev = (d.entries b).lru_newer in
    let next = (d.entries b).lru_older in
    let d0 = record d {
      entries = put d.entries b (record (d.entries b) { lru_newer = none; lru_older = none });
    } in
    set_newer next prev (set_older prev next d0)

unfoldable pub remove_from_lru : ℕ → DeviceLru → Result DeviceLru
unfolding unlink
remove_from_lru b d = assert_unlocked (d.entries b) >> ok (unlink b d)

-- increment_allocation_locks, the part on the buffer.
unfoldable pub increment_allocation_locks : ℕ → DeviceLru → Result DeviceLru
unfolding remove_from_lru
increment_allocation_locks b d =
    let e = d.entries b in
    let removed = if e.num_allocation_locks == 0 then remove_from_lru b d else ok d in
    kmm_assert e.is_allocated >> removed >>= λ d. ok (record d {
      entries = put d.entries b (record (d.entries b) {
        num_allocation_locks = ((d.entries b).num_allocation_locks + 1) % 2 ^ 64;
      });
    })

unfoldable pub decrement_allocation_locks : ℕ → DeviceLru → Result DeviceLru
unfolding add_to_lru
decrement_allocation_locks b d =
    let e = d.entries b in
    let left = e.num_allocation_locks - 1 in
    let counted = record d {
      entries = put d.entries b (record e { num_allocation_locks = left });
    } in
    kmm_assert e.is_allocated
    >> kmm_assert (ltb 0 e.num_allocation_locks)
    >> (if left == 0 then add_to_lru b counted else ok counted)

-- The end of try_allocate_device_async, after an allocation that succeeded, the part on the list.
unfoldable pub allocated_on_device : ℕ → DeviceLru → Result DeviceLru
unfolding add_to_lru
allocated_on_device b d =
    add_to_lru b
      (record d { entries = put d.entries b (record (d.entries b) { is_allocated = true }) })

-- deallocate_device_async, the part on the list.
unfoldable pub deallocate_device_async : ℕ → DeviceLru → Result DeviceLru
unfolding remove_from_lru
deallocate_device_async b d =
    let removed = remove_from_lru b d >>= λ d.
    ok (record d { entries = put d.entries b (record (d.entries b) { is_allocated = false }) }) in
    kmm_assert ((d.entries b).num_allocation_locks == 0)
    >> (if (d.entries b).is_allocated then removed else ok d)
