-- ===== src/Ring.antt =====
-- include/afxdp/ring.hpp: the single-producer, single-consumer ring that is shared with the
-- kernel. A record holds both the private fields of `MmapRing` and the words that its pointers
-- reach: `producer`, `consumer`, `flags` and `descs` stand for `*producer_`, `*consumer_`,
-- `*flags_` and the array at `descs_`. The kernel writes those between two operations.
pub mod Window
pub mod Roles
pub mod Consumer
pub mod Producer
use af_xdp_reimpl.Prelude.{
  ℕ, ◌-◌, ◌^◌, Bool, not, bit_and, add32, sub32, store, ltb, ◌==◌, if◌then◌else◌,
}

pub data RingKind : Type 0 where
  rx tx fill completion : RingKind

pub record Range : Type 0 where
  pub amount : ℕ
  pub start : ℕ

pub record MmapRing {ℓ} (A : Type ℓ) : Type ℓ where
  pub producer : ℕ
  pub consumer : ℕ
  pub descs : ℕ → A
  pub flags : ℕ
  pub num_descs : ℕ
  pub mask : ℕ
  pub cached_prod : ℕ
  pub cached_cons : ℕ

abbrev pub xdp_ring_need_wakeup : ℕ
xdp_ring_need_wakeup = 1

module _ {ℓ} {A : Type ℓ} where
  abbrev pub slot : MmapRing A → ℕ → ℕ
  slot r i = bit_and i r.mask

  -- `desc_at(i)` as a value, and as the target of an assignment.
  abbrev pub desc_at : MmapRing A → ℕ → A
  desc_at r i = r.descs (slot r i)

  abbrev pub set_desc_at : MmapRing A → ℕ → A → MmapRing A
  set_desc_at r i v = record r { descs = store r.descs (slot r i) v }

  unfoldable pub need_wakeup : MmapRing A → Bool
  need_wakeup r = not (bit_and r.flags xdp_ring_need_wakeup == 0)

  abbrev pub capacity : MmapRing A → ℕ
  capacity r = r.num_descs

  -- `cached_prod_ - cached_cons_`
  abbrev pub cached_entries : MmapRing A → ℕ
  cached_entries r = sub32 r.cached_prod r.cached_cons

  abbrev refresh_prod : MmapRing A → MmapRing A
  refresh_prod r = if cached_entries r == 0 then record r { cached_prod = r.producer } else r

  unfoldable pub readable_range : MmapRing A → ℕ → Range × MmapRing A
  readable_range r batch_size =
      let r' = refresh_prod r in
      let entries = cached_entries r' in
      (
        record {
          amount = if ltb batch_size entries then batch_size else entries;
          start = r'.cached_cons;
        },
        r',
      )

  unfoldable pub release_consumed_entries : MmapRing A → ℕ → MmapRing A
  release_consumed_entries r amount =
      let cons = add32 r.cached_cons amount in record r { cached_cons = cons; consumer = cons }

  unfoldable pub queued_entry_count : MmapRing A → ℕ
  queued_entry_count r = sub32 r.producer r.consumer

  -- `num_descs_ - (cached_prod_ - cached_cons_)`
  abbrev pub free_n : MmapRing A → ℕ
  free_n r = sub32 r.num_descs (cached_entries r)

  abbrev refresh_cons : MmapRing A → ℕ → MmapRing A
  refresh_cons r n = if ltb (free_n r) n then record r { cached_cons = r.consumer } else r

  unfoldable pub writable_range : MmapRing A → ℕ → Range × MmapRing A
  writable_range r n =
      let r' = refresh_cons r n in
      let free = free_n r' in
      (record { amount = if ltb free n then free else n; start = r'.cached_prod }, r')

  unfoldable pub publish_written_entries : MmapRing A → ℕ → MmapRing A
  publish_written_entries r amount =
      let prod = add32 r.cached_prod amount in record r { cached_prod = prod; producer = prod }
