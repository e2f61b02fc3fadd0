-- ===== src/Tests/RingTests.antt =====
-- The ring, the allocator and the refill at concrete inputs: rings of four slots whose indices are
-- about to wrap.
use af_xdp_reimpl.Prelude.{ℕ, ◌+◌, ◌-◌, ◌^◌, ◌≡◌, refl, [], ◌∷◌, arith, none, some, ◌⊎◌}
use af_xdp_reimpl.Ring.{
  MmapRing, readable_range, release_consumed_entries, writable_range, publish_written_entries,
  set_desc_at, queued_entry_count,
}
use af_xdp_reimpl.Ring.Roles.{contents, IsConsumer, IsProducer}
use af_xdp_reimpl.Ring.Consumer.{Readable, readable_range_lem}
use af_xdp_reimpl.Ring.Producer.{Writable, writable_range_lem}
use af_xdp_reimpl.Kernel.Contract.{Produces, Consumes}
use af_xdp_reimpl.Kernel.Fifo.{
  ConsumerRun, kernel_puts, engine_asks, engine_releases, here, ProducerRun, start, kernel_takes,
  engine_asks_room, engine_writes, engine_publishes, IsQueue, consumer_run_lem, producer_run_lem,
}
use af_xdp_reimpl.FrameAllocator.{FrameAllocator, init, alloc, free}
use af_xdp_reimpl.FrameAllocator.Stack.{IsValid, available, alloc_lem, free_lem}
use af_xdp_reimpl.Xsk.{refill_fill}
use af_xdp_reimpl.Xsk.Refill.{Refill, refill_fill_lem}

-- The kernel has published three entries, of which one is known; the producer index has wrapped.
abbrev received : MmapRing ℕ
received = record {
  producer = 1;
  consumer = 2 ^ 32 - 2;
  descs = λ i. 10 + i;
  flags = 1;
  num_descs = 4;
  mask = 3;
  cached_prod = 2 ^ 32 - 1;
  cached_cons = 2 ^ 32 - 2;
}

-- Two entries are in flight, and the cached consumer index is stale by one.
abbrev filling : MmapRing ℕ
filling = record {
  producer = 1;
  consumer = 2 ^ 32 - 1;
  descs = λ i. 10 + i;
  flags = 0;
  num_descs = 4;
  mask = 3;
  cached_prod = 1;
  cached_cons = 2 ^ 32 - 2;
}

abbrev three_frames : FrameAllocator
three_frames = init 4 3 2048

received-IsConsumer : IsConsumer 2 received
received-IsConsumer = omega arith

filling-IsProducer : IsProducer 2 filling
filling-IsProducer = omega arith

three_frames-IsValid : IsValid three_frames
unfolding init
three_frames-IsValid = omega arith

received_contents : contents received ≡ 12 ∷ 13 ∷ 10 ∷ []
received_contents = refl

queued_of_received : queued_entry_count received ≡ 3
unfolding queued_entry_count
queued_of_received = refl

three_frames-available : available three_frames ≡ 4096 ∷ 2048 ∷ 0 ∷ []
unfolding init
three_frames-available = refl

refill_moves_two : (refill_fill filling three_frames).0 ≡ 2
unfolding refill_fill writable_range alloc init publish_written_entries
refill_moves_two = refl

readable_range_lem_example : Readable 2 received 64 (readable_range received 64)
readable_range_lem_example = readable_range_lem 64 received-IsConsumer

writable_range_lem_example : Writable 2 filling 4 (writable_range filling 4)
writable_range_lem_example = writable_range_lem 4 filling-IsProducer

alloc_lem_example :
    let (frame, a') = alloc three_frames in
    ((frame ≡ none) × (available three_frames ≡ []) × (a' ≡ three_frames))
    ⊎ ((x : ℕ) × (frame ≡ some x)
        × (available three_frames ≡ x ∷ available a')
        × IsValid a'
        × (a'.capacity ≡ three_frames.capacity))
alloc_lem_example = alloc_lem three_frames three_frames-IsValid

free_lem_example :
    let a' = free three_frames 6144 in
    IsValid a' × (available a' ≡ 6144 ∷ available three_frames) × (a'.capacity ≡ 4)
unfolding init
free_lem_example = free_lem three_frames 6144 three_frames-IsValid (omega arith)

refill_fill_lem_example : Refill 2 filling three_frames (refill_fill filling three_frames)
refill_fill_lem_example =
    refill_fill_lem filling three_frames filling-IsProducer three_frames-IsValid

-- The kernel fills the last slot of the ring.
abbrev puts_one : Produces 2 received (record received { producer = 2 })
puts_one = record {
  local = record { num_descs = refl; mask = refl; cached_prod = refl; cached_cons = refl };
  consumer = refl;
  word = omega arith;
  forward = omega arith;
  fits = omega arith;
  fresh = 11 ∷ [];
  appended = refl;
}

-- The four entries, of which the engine knows one: it reads that one first.
abbrev one_read : MmapRing ℕ
one_read = release_consumed_entries (readable_range (record received { producer = 2 }) 64).1 1

abbrev all_read : MmapRing ℕ
all_read = release_consumed_entries (readable_range one_read 64).1 3

reads_in_order : ConsumerRun 2 received (11 ∷ []) (12 ∷ 13 ∷ 10 ∷ 11 ∷ []) all_read
unfolding readable_range release_consumed_entries
reads_in_order =
    let first = kernel_puts here (record received { producer = 2 }) puts_one in
    let second = engine_releases (engine_asks first 64) 1 (omega arith) in
    engine_releases (engine_asks second 64) 3 (omega arith)

consumer_run_lem_example : IsQueue 2 received (11 ∷ []) (12 ∷ 13 ∷ 10 ∷ 11 ∷ []) all_read
consumer_run_lem_example = consumer_run_lem 2 received received-IsConsumer reads_in_order

-- The kernel takes the oldest of the two entries.
takes_one : Consumes filling (record filling { consumer = 0 })
takes_one = record {
  local = record { num_descs = refl; mask = refl; cached_prod = refl; cached_cons = refl };
  producer = refl;
  descs = refl;
  word = omega arith;
  forward = omega arith;
}

-- The kernel takes an entry, and the engine writes one and publishes it.
one_published : ProducerRun 2 filling (77 ∷ []) (13 ∷ []) (
    publish_written_entries
      (set_desc_at (writable_range (record filling { consumer = 0 }) 1).1 1 77)
      1)
unfolding writable_range
one_published =
    engine_publishes
      (engine_writes
        (engine_asks_room (kernel_takes start (record filling { consumer = 0 }) takes_one) 1) 0 77
        (omega arith))
      1 (omega arith)

producer_run_lem_example : IsQueue 2 filling (77 ∷ []) (13 ∷ []) (
    publish_written_entries
      (set_desc_at (writable_range (record filling { consumer = 0 }) 1).1 1 77)
      1)
producer_run_lem_example = producer_run_lem 2 filling filling-IsProducer one_published
