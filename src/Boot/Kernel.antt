-- ===== src/Boot/Kernel.antt =====
-- bootmain of boot/main.c loads a kernel image segment by segment, or refuses it.
use sisop_tps.Prelude.{
  ℕ, zero, suc, ◌+◌, ◌*◌, ◌%◌, ◌^◌, ◌≤◌, ◌<◌, ◌≡◌, ◌≢◌, ◌⊎◌, refl, ap, ◌∙◌, true, false, inl, inr,
  ◌==◌, word, arith,
}
use native.Mathlib.Decide.{ℕ_discrete}
use sisop_tps.Prelude.Run.{Returns, bind-Returns}
use sisop_tps.Memory.{Memory}
use sisop_tps.Boot.{
  Ports, readseg, load_segments, bootmain, elfhdr, elf_magic, word_at, e_entry, e_phoff, e_phnum,
  p_offset, p_pa, p_memsz, entered, bad,
}
use sisop_tps.Boot.Disk.{Drive}
use sisop_tps.Boot.Segment.{image_of, Loads, readseg-Loads}

-- A word is read from the same bytes at another place.
word_at-move :
    (m m' : Memory) (p q : ℕ)
    → ((i : ℕ) → i < 4 → m (p + i) ≡ m' (q + i))
    → word_at m p ≡ word_at m' q
word_at-move m m' p q e =
    let z : p + 0 ≡ p = omega arith in
    let y : q + 0 ≡ q = omega arith in
    omega (
      arith,
      rw (z, y) at (e 0 (omega arith)),
      e 1 (omega arith),
      e 2 (omega arith),
      e 3 (omega arith),
    )

-- the program headers of an image, by number
module _ (image : Memory) where
  unfoldable pub header : ℕ → ℕ
  header j = e_phoff image 0 + 32 * j

  unfoldable pub seg_pa : ℕ → ℕ
  seg_pa j = p_pa image (header j)

  unfoldable pub seg_size : ℕ → ℕ
  seg_size j = p_memsz image (header j)

  unfoldable pub seg_offset : ℕ → ℕ
  seg_offset j = p_offset image (header j)

  -- A kernel that the loader can load: the headers lie in the first 4096 bytes, and the segments, at the same
  -- place of a sector in the image and in memory, keep apart from the header page and from one another.
  pub record Loadable (n : ℕ) : Type 0 where
    pub number : e_phnum image 0 ≡ n
    pub headers : header n ≤ 4096
    pub aligned : (j : ℕ) → j < n → seg_pa j % 512 ≡ seg_offset j % 512
    pub low : (j : ℕ) → j < n → seg_pa j + seg_size j + 1024 ≤ word
    pub short : (j : ℕ) → j < n → seg_offset j + seg_size j + 2048 ≤ 2 ^ 37
    pub clear : (j : ℕ) → j < n → (seg_pa j + seg_size j + 512 ≤ 0x1_0000) ⊎ (0x1_1200 ≤ seg_pa j)
    pub apart :
        (i j : ℕ)
        → i < j
        → j < n
        → (seg_pa i + seg_size i + 512 ≤ seg_pa j) ⊎ (seg_pa j + seg_size j + 512 ≤ seg_pa i)

  -- The header page is in memory, and the segments below `j`.
  pub record Loaded (j : ℕ) (m : Memory) : Type 0 where
    pub page : (i : ℕ) → i < 4096 → m (elfhdr + i) ≡ image i
    pub segments :
        (i : ℕ) → i < j → (k : ℕ) → k < seg_size i → m (seg_pa i + k) ≡ image (seg_offset i + k)

  -- A field of the header page reads as in the image.
  page_word :
      (m : Memory) (j p : ℕ) → Loaded j m → p + 4 ≤ 4096 → word_at m (elfhdr + p) ≡ word_at image p
  page_word m j p l h =
      word_at-move m image (elfhdr + p) p (λ i b. ap m (omega arith) ∙ l.page (p + i) (omega arith))

  -- The loader reads the fields of a segment from the header page.
  seg_fields :
      (m : Memory) (j p : ℕ)
      → Loaded j m
      → header j + 24 ≤ 4096
      → p ≡ elfhdr + header j
      → (p_pa m p ≡ seg_pa j) × (p_memsz m p ≡ seg_size j) × (p_offset m p ≡ seg_offset j)
  unfolding seg_pa seg_size seg_offset
  seg_fields m j p l h e =
      let field : (i : ℕ) → i ≤ 20 → word_at m (p + i) ≡ word_at image (header j + i) =
        λ i b. ap (word_at m) (omega arith) ∙ page_word m j (header j + i) l (omega arith) in
      (field 12 (omega arith), field 20 (omega arith), field 4 (omega arith))

module _ (disk : ℕ → ℕ) where
  -- the image on the disk
  abbrev pub kernel : Memory
  kernel = image_of disk

  -- One segment more.
  Loaded-suc :
      (n j : ℕ) (m m' : Memory)
      → Loadable kernel n
      → j < n
      → Loaded kernel j m
      → Loads disk m (seg_pa kernel j) (seg_size kernel j) (seg_offset kernel j) m'
      → Loaded kernel (suc j) m'
  Loaded-suc n j m m' a l h s = record {
    page = λ i b.
        s.frame (elfhdr + i)
          (elim (a.clear j l) [ inl x ↦ inr (omega arith) | inr x ↦ inl (omega arith) ])
        ∙ h.page i b;
    segments = λ i b k c. elim (ℕ_discrete i j) [
      | yes e ↦ rw e (s.bytes k (omega (arith, ap (seg_size kernel) e)))
      | no e ↦
          let older : i < j = omega arith in
          s.frame (seg_pa kernel i + k)
            (elim (a.apart i j older l) [ inl x ↦ inl (omega arith) | inr x ↦ inr (omega arith) ])
          ∙ h.segments i older k c
    ];
  }

module _ {W : Type 0} {d : Ports W} {disk : ℕ → ℕ} {delay : ℕ} (v : Drive d disk delay) where
  load_segments_lem :
      (n fuel : ℕ)
      → Loadable (kernel disk) n
      → delay < fuel
      → (k j p : ℕ) (m : Memory) (w : W) → j + k ≡ n
      → p ≡ elfhdr + header (kernel disk) j
      → Loaded (kernel disk) j m
      → Returns (load_segments d fuel k p (m, w)) (λ s. Loaded (kernel disk) n s.0)
  unfolding load_segments header
  load_segments_lem n fuel a u zero j p m w e at h = let same : j ≡ n = omega arith in rw same at h
  load_segments_lem n fuel a u (suc k) j p m w e at h =
      let l : j < n = omega arith in
      let in_page : header (kernel disk) j + 32 ≤ 4096 = omega (arith, a.headers) in
      let fields = seg_fields (kernel disk) m j p h (omega arith) at in
      let (pa, size, offset) = fields in
      rw (pa, size, offset)
        (bind-Returns
          (readseg d fuel (seg_pa (kernel disk) j) (seg_size (kernel disk) j)
            (seg_offset (kernel disk) j) (m, w))
          _ _ _
          (readseg-Loads v fuel (seg_pa (kernel disk) j) (seg_size (kernel disk) j)
            (seg_offset (kernel disk) j) m w (a.aligned j l) (a.low j l) (a.short j l) u)
          (λ s b.
            load_segments_lem n fuel a u k (suc j) (p + 32) s.0 s.1 (omega arith) (omega arith)
              (Loaded-suc disk n j m s.0 a l h b)))

  -- For a drive that answers in time and an image that begins with the magic number and can be loaded, the
  -- loader jumps to the image's entry point, and the header page and the bytes of every segment are in
  -- memory at their addresses.
  pub bootmain-Loaded :
      (n fuel : ℕ) (m : Memory) (w : W)
      → word_at (kernel disk) 0 ≡ elf_magic
      → Loadable (kernel disk) n
      → delay < fuel
      → Returns
          (bootmain d fuel (m, w))
          (λ r. (r.0 ≡ entered (e_entry (kernel disk) 0)) × Loaded (kernel disk) n r.1)
  unfolding bootmain header
  bootmain-Loaded n fuel m w magic a u =
      bind-Returns (readseg d fuel elfhdr 4096 0 (m, w)) _ _ _
        (readseg-Loads v fuel elfhdr 4096 0 m w refl (omega arith) (omega arith) u)
        (λ s b.
          let page : Loaded (kernel disk) 0 s.0 = record {
            page = λ i l. b.bytes i l ∙ ap (kernel disk) (omega arith);
            segments = λ i l. absurd (omega arith);
          } in
          let begin : word_at s.0 elfhdr ≡ word_at (kernel disk) 0 =
            page_word (kernel disk) s.0 0 0 page (omega arith) in
          let real : (word_at s.0 elfhdr == elf_magic) ≡ true = rw (begin, magic) refl in
          let phoff : e_phoff s.0 elfhdr ≡ e_phoff (kernel disk) 0 =
            page_word (kernel disk) s.0 0 28 page (omega arith) in
          let phnum : e_phnum s.0 elfhdr ≡ n =
            omega (arith, page.page 44 (omega arith), page.page 45 (omega arith), a.number) in
          rw (real, phnum)
            (bind-Returns (load_segments d fuel n (elfhdr + e_phoff s.0 elfhdr) s) _ _ _
              (load_segments_lem n fuel a u n 0 (elfhdr + e_phoff s.0 elfhdr) s.0 s.1 (omega arith)
                (omega arith) page)
              (λ s₂ c. (ap entered (page_word (kernel disk) s₂.0 n 24 c (omega arith)), c))))

  -- For a drive that answers in time and an image that does not begin with the magic number, the loader gives
  -- up: the first 4096 bytes of the image are at 0x10000, beyond their sectors memory is as before, and the last
  -- that it does to the world is to write the words 0x8A00 and 0x8E00, in this order, to the port 0x8A00.
  pub bootmain-bad :
      (fuel : ℕ) (m : Memory) (w : W)
      → word_at (kernel disk) 0 ≢ elf_magic
      → delay < fuel
      → Returns (bootmain d fuel (m, w)) (λ r.
        (r.0 ≡ bad)
        × Loads disk m elfhdr 4096 0 r.1
        × ((w' : W) × (r.2 ≡ d.outw 0x8a00 0x8e00 (d.outw 0x8a00 0x8a00 w'))))
  unfolding bootmain
  bootmain-bad fuel m w wrong u =
      bind-Returns (readseg d fuel elfhdr 4096 0 (m, w)) _ _ _
        (readseg-Loads v fuel elfhdr 4096 0 m w refl (omega arith) (omega arith) u)
        (λ s b.
          let begin : word_at s.0 elfhdr ≡ word_at (kernel disk) 0 =
            word_at-move s.0 (kernel disk) elfhdr 0 (λ i l. b.bytes i (omega arith)) in
          let other : (word_at s.0 elfhdr == elf_magic) ≡ false = ground (arith, begin) in
          rw other (refl, b, (s.1, refl)))
