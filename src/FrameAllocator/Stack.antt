-- ===== src/FrameAllocator/Stack.antt =====
-- The allocator as a stack: what `alloc` and `free` do to the list of the free frames.
use af_xdp_reimpl.Prelude.{
  ℕ, zero, suc, ◌+◌, ◌*◌, ◌%◌, ◌^◌, ◌≤◌, ◌<◌, ◌≡◌, refl, ap, ap₂, sym, subst, ◌⊎◌, inl, inr, ◌∙◌,
  none, some, List, [], ◌∷◌, arith, add32, sub32, store, store_self, length, Bool-cases, ◌==◌,
}
use af_xdp_reimpl.FrameAllocator.{FrameAllocator, fill_frames, init, alloc, free}

-- The first `n` offsets of the array, the last one first.
abbrev pub stack : (ℕ → ℕ) → ℕ → List ℕ
stack frames zero = []
stack frames (suc n) = frames n ∷ stack frames n

-- The free frames, in the order in which `alloc` hands them out.
abbrev pub available : FrameAllocator → List ℕ
available a = stack a.frames a.count

pub record IsValid (a : FrameAllocator) : Type 0 where
  pub fits : a.count ≤ a.capacity
  pub word : a.capacity < 2 ^ 32

length-stack : (f : ℕ → ℕ) (n : ℕ) → length (stack f n) ≡ n
length-stack f zero = refl
length-stack f (suc n) = ap suc (length-stack f n)

pub length-available : (a : FrameAllocator) → length (available a) ≡ a.count
length-available a = length-stack a.frames a.count

stack-store : (f : ℕ → ℕ) (i n v : ℕ) → n ≤ i → stack (store f i v) n ≡ stack f n
stack-store f i zero v h = refl
stack-store f i (suc n) v h = ground (arith, stack-store f i n v)

-- `alloc` fails exactly when no frame is free, and otherwise takes the frame freed last.
pub alloc_lem :
    (a : FrameAllocator)
    → IsValid a
    → let (frame, a') = alloc a in
      ((frame ≡ none) × (available a ≡ []) × (a' ≡ a))
      ⊎ ((x : ℕ) × (frame ≡ some x)
          × (available a ≡ x ∷ available a')
          × IsValid a'
          × (a'.capacity ≡ a.capacity))
unfolding alloc
alloc_lem a v =
    let top = sub32 a.count 1 in
    elim (Bool-cases (a.count == 0)) [
      | inl e ↦
          let nothing : a.count ≡ 0 = ground arith in
          inl (ground arith, ap (stack a.frames) nothing, ground arith)
      | inr e ↦
          let more : a.count ≡ suc top = ground arith in
          inr (
            a.frames top,
            ground arith,
            rw e (ap (stack a.frames) more),
            ground arith,
            ground arith,
          )
    ]

-- `free` below the capacity writes inside the array, and the frame is the next to be handed out.
pub free_lem :
    (a : FrameAllocator) (offset : ℕ)
    → IsValid a
    → a.count < a.capacity
    → let a' = free a offset in
      IsValid a' × (available a' ≡ offset ∷ available a) × (a'.capacity ≡ a.capacity)
unfolding free
free_lem a offset v h =
    let next : add32 a.count 1 ≡ suc a.count = omega arith in
    (
      ground arith,
      ap (stack (store a.frames a.count offset)) next
          ∙ ap₂ ◌∷◌ (store_self a.frames a.count offset)
              (stack-store a.frames a.count a.count offset (omega arith)),
      refl,
    )

-- The `n` chunks of a region that starts at 0, the last one first.
abbrev pub chunks : ℕ → ℕ → List ℕ
chunks size zero = []
chunks size (suc n) = n * size ∷ chunks size n

offset_small : (i n size : ℕ) → i < n → n * size ≤ 2 ^ 64 → i * size % 2 ^ 64 ≡ i * size
offset_small i n zero h fits = omega arith
offset_small i n (suc size) h fits =
    let below : i * suc size < n * suc size = grind arith in omega arith

stack-fill_frames :
    (n i size total : ℕ) (f : ℕ → ℕ)
    → i + n ≡ total
    → total * size ≤ 2 ^ 64
    → stack f i ≡ chunks size i
    → stack (fill_frames n i size f) total ≡ chunks size total
unfolding fill_frames
stack-fill_frames zero i size total f e fits done =
    let here : i ≡ total = omega arith in subst (λ (t : ℕ). stack f t ≡ chunks size t) here done
stack-fill_frames (suc n) i size total f e fits done =
    let x = i * size % 2 ^ 64 in
    let next : i + 1 ≡ suc i = omega arith in
    stack-fill_frames n (i + 1) size total (store f i x) (omega arith) fits (
      subst (λ (t : ℕ). stack (store f i x) t ≡ chunks size t) (sym next)
        (ap₂ ◌∷◌ (store_self f i x ∙ offset_small i total size (omega arith) fits)
          (stack-store f i i x (omega arith) ∙ done)))

-- A new allocator holds every chunk of the region once, each at its own multiple of the size.
pub init_lem :
    (capacity num_frames size : ℕ)
    → num_frames ≤ capacity
    → capacity < 2 ^ 32
    → num_frames * size ≤ 2 ^ 64
    → let a = init capacity num_frames size in IsValid a × (available a ≡ chunks size num_frames)
unfolding init
init_lem capacity num_frames size fits word region =
    (omega arith, stack-fill_frames num_frames 0 size num_frames (λ _. 0) (omega arith) region refl)
