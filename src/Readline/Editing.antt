-- ===== src/Readline/Editing.antt =====
-- readline (lib/readline.c) against a line editor on lists.
use sisop_tps.Prelude.{
  ℕ, zero, suc, ◌+◌, ◌-◌, ◌%◌, ◌<◌, ◌≡◌, refl, sym, ◌∙◌, true, false, inl, inr, ◌&&◌, ◌||◌, List,
  [], ◌∷◌, ◌++◌, ◌==◌, ltb, leb, slt, half_word, if◌then◌else◌, length, get_or, set, codes, foldl,
  All, length-set, length-append, get_or-set_self, get_or-set_ne, get_or-snoc_inner,
  get_or-snoc_last, drop_last, length-drop_last, get_or-drop_last, Bool-cases, arith,
}
use sisop_tps.Prelude.Run.{done, ◌>>=◌, Returns, bind-Returns}
use sisop_tps.Readline.{
  Terminal, read_error, erase, insert, enter, ignored, key_of, Line, echo, read_keys, readline,
  backspace, buflen,
}

-- What a terminal does: `Keys s ks` says that `ks` are the characters still to be read, and output does not
-- change them.
pub record Keyboard {S : Type 0} (t : Terminal S) (Keys : S → List ℕ → Type 0) : Type 0 where
  pub reads :
      (s : S) (c : ℕ) (ks : List ℕ)
      → Keys s (c ∷ ks)
      → Returns (t.getchar s) (λ r. (r.0 ≡ c) × Keys r.1 ks)
  pub puts : (c : ℕ) (s : S) (ks : List ℕ) → Keys s ks → Keys (t.cputchar c s) ks
  pub prints :
      (prompt : ℕ) (s : S) (ks : List ℕ)
      → Keys s ks
      → Returns (t.cprintf (codes "%s") (prompt ∷ []) s) (λ s'. Keys s' ks)

-- the editor: a key takes the last character away, adds one where there is room, or does nothing
unfoldable pub edit : List ℕ → ℕ → List ℕ
edit text c =
    if (c == 8 || c == 127) && ltb 0 (length text)
    then drop_last text
    else if leb 32 c && ltb (length text) 1023
    then text ++ (c % 256 ∷ [])
    else text

abbrev pub IsEnter : ℕ → Type 0
IsEnter c = (c == b'\n' || c == b'\r') ≡ true

-- characters, and not those that end the line
abbrev pub IsKey : ℕ → Type 0
IsKey c = (c < half_word) × ((c == b'\n' || c == b'\r') ≡ false)

-- The buffer starts with the text.
pub record Starts (buf text : List ℕ) : Type 0 where
  pub whole : length buf ≡ buflen
  pub room : length text < buflen
  pub same : (i : ℕ) → i < length text → get_or buf i 0 ≡ get_or text i 0

-- The buffer goes on to start with the text when the text loses or gains its last character.
Starts-erase : (buf text : List ℕ) → Starts buf text → 0 < length text → Starts buf (drop_last text)
Starts-erase buf text v h = record {
  whole = v.whole;
  room = omega (arith, length-drop_last text, v.room);
  same = λ i l.
      v.same i (omega (arith, length-drop_last text))
      ∙ sym (get_or-drop_last text 0 i (omega (arith, length-drop_last text)));
}

Starts-insert :
    (buf text : List ℕ) (c : ℕ)
    → Starts buf text
    → length text < 1023
    → Starts (set buf (length text) c) (text ++ (c ∷ []))
Starts-insert buf text c v h = record {
  whole = length-set buf (length text) c ∙ v.whole;
  room = omega (arith, length-append text (c ∷ []));
  same = λ i l. elim (Bool-cases (i == length text)) [
    | inl e ↦
        let last : i ≡ length text = ground (arith, e) in
        rw last (
          get_or-set_self buf (length text) c 0 (omega (arith, v.whole))
          ∙ sym (get_or-snoc_last text c 0))
    | inr e ↦
        let inner : i < length text = ground (arith, e, length-append text (c ∷ [])) in
        get_or-set_ne buf c 0 (λ same. omega arith)
        ∙ v.same i inner
        ∙ sym (get_or-snoc_inner text c 0 i inner)
  ];
}

-- The text of a line that is entered: the buffer starts with it, and a NUL follows.
pub record Entered (buf text : List ℕ) : Type 0 where
  pub starts : Starts buf text
  pub ended : get_or buf (length text) 0 ≡ 0

Starts-enter : (buf text : List ℕ) → Starts buf text → Entered (set buf (length text) 0) text
Starts-enter buf text v = record {
  starts = record {
    whole = length-set buf (length text) 0 ∙ v.whole;
    room = v.room;
    same = λ i l. get_or-set_ne buf 0 0 (λ same. omega arith) ∙ v.same i l;
  };
  ended = get_or-set_self buf (length text) 0 0 (omega (arith, v.whole, v.room));
}

key_of-enter : (c i : ℕ) → IsEnter c → key_of c i ≡ enter
unfolding key_of
key_of-enter c i h = ground arith

key_of-error : (c i : ℕ) → slt c 0 ≡ true → key_of c i ≡ read_error
unfolding key_of
key_of-error c i h = rw h refl

-- What the loop does with a key is what the editor does.
data Handled (text : List ℕ) (c : ℕ) : Type 0 where
  erased :
      key_of c (length text) ≡ erase
      → 0 < length text
      → edit text c ≡ drop_last text
      → Handled text c
  inserted :
      key_of c (length text) ≡ insert
      → length text < 1023
      → edit text c ≡ text ++ (c % 256 ∷ [])
      → Handled text c
  skipped : key_of c (length text) ≡ ignored → edit text c ≡ text → Handled text c

handle : (text : List ℕ) (c : ℕ) → IsKey c → Handled text c
unfolding key_of edit
handle text c h = elim (Bool-cases ((c == 8 || c == 127) && ltb 0 (length text))) [
  | inl e ↦ erased (ground (arith, e)) (ground (arith, e)) (rw e refl)
  | inr e ↦ elim (Bool-cases (leb 32 c && ltb (length text) 1023)) [
    | inl u ↦ inserted (ground (arith, e, u)) (ground (arith, u)) (rw (e, u) refl)
    | inr u ↦ skipped (ground (arith, e, u)) (rw (e, u) refl)
  ]
]

module _ {S : Type 0} (t : Terminal S) (Keys : S → List ℕ → Type 0) (k : Keyboard t Keys) where
  echo-Keys : (c : ℕ) (s : S) (ks : List ℕ) → Keys s ks → Keys (echo t c s) ks
  echo-Keys c s ks h = elim (Bool-cases t.iscons) [
    | inl e ↦ rw e (k.puts c s ks h)
    | inr e ↦ rw e h
  ]

  -- what a line's end leaves
  pub record Ends (text rest : List ℕ) (r : Line S) : Type 0 where
    pub returned : r.entered ≡ true
    pub text_is : Entered r.buf text
    pub left : Keys r.term rest

  read_keys_lem :
      (ks rest : List ℕ) (e fuel : ℕ) (buf text : List ℕ) (s : S)
      → Starts buf text
      → All IsKey ks
      → IsEnter e
      → Keys s (ks ++ (e ∷ rest))
      → length ks < fuel
      → Returns (read_keys t fuel buf (length text) s) (Ends (foldl edit text ks) rest)
  unfolding read_keys
  read_keys_lem ks rest e zero buf text s v a h p l = absurd (omega arith)
  read_keys_lem [] rest e (suc f) buf text s v a h p l =
      bind-Returns (t.getchar s) _ _ _ (k.reads s e rest p) (λ r (same, left).
        let is : key_of r.0 (length text) ≡ enter = rw same (key_of-enter e (length text) h) in
        rw is (record {
          returned = refl;
          text_is = Starts-enter buf text v;
          left = echo-Keys b'\n' r.1 rest left;
        }))
  read_keys_lem (c ∷ ks) rest e (suc f) buf text s v a h p l =
      bind-Returns (t.getchar s) _ _ _ (k.reads s c (ks ++ (e ∷ rest)) p) (λ r (same, left).
        elim (handle text c a.0) [
          | erased is pos ed ↦
              let n : length text - 1 ≡ length (drop_last text) =
                omega (arith, length-drop_last text) in
              rw (same, is, ed, n)
                (read_keys_lem ks rest e f buf (drop_last text) _ (Starts-erase buf text v pos) a.1
                  h (echo-Keys backspace r.1 (ks ++ (e ∷ rest)) left) (omega arith))
          | inserted is room ed ↦
              let n : length text + 1 ≡ length (text ++ (c % 256 ∷ [])) =
                omega (arith, length-append text (c % 256 ∷ [])) in
              rw (same, is, ed, n, same)
                (read_keys_lem ks rest e f _ (text ++ (c % 256 ∷ [])) _
                  (Starts-insert buf text (c % 256) v room) a.1 h
                  (echo-Keys c r.1 (ks ++ (e ∷ rest)) left) (omega arith))
          | skipped is ed ↦
              rw (same, is, ed) (read_keys_lem ks rest e f buf text r.1 v a.1 h left (omega arith))
        ])

  -- From a terminal on which keys and then Enter are typed, `readline` returns, with fuel for the keys: the
  -- buffer holds, terminated and within its 1024 bytes, the text that the editor makes of the keys, and the
  -- keys behind Enter are still to be read.
  pub readline-Ends :
      (ks rest : List ℕ) (e prompt fuel : ℕ) (buf : List ℕ) (s : S)
      → length buf ≡ buflen
      → All IsKey ks
      → IsEnter e
      → Keys s (ks ++ (e ∷ rest))
      → length ks < fuel
      → Returns (readline t fuel prompt buf s) (Ends (foldl edit [] ks) rest)
  unfolding readline
  readline-Ends ks rest e prompt fuel buf s w a h p l =
      bind-Returns _ _ (λ s'. Keys s' (ks ++ (e ∷ rest))) _ prompted
        (λ s' there.
          read_keys_lem ks rest e fuel buf [] s'
            (record { whole = w; room = omega arith; same = λ i b. absurd (omega arith) }) a h there
            l)
    where
      prompted :
          Returns
            (if prompt == 0 then done s else t.cprintf (codes "%s") (prompt ∷ []) s)
            (λ s'. Keys s' (ks ++ (e ∷ rest)))
      prompted = elim (Bool-cases (prompt == 0)) [
        | inl z ↦ rw z p
        | inr z ↦ rw z (k.prints prompt s (ks ++ (e ∷ rest)) p)
      ]

  -- When the terminal answers a negative number, `readline` prints it, gives up with a null pointer and
  -- leaves the buffer as it is, however much has been typed.
  read_keys_error :
      (c i fuel : ℕ) (buf : List ℕ) (s s₁ : S)
      → slt c 0 ≡ true
      → t.getchar s ≡ done (c, s₁)
      → 0 < fuel
      → read_keys t fuel buf i s ≡ (
          t.cprintf (codes "read error: %e\n") (c ∷ []) s₁ >>= λ s'.
          done (record { entered = false; buf = buf; term = s' }))
  unfolding read_keys
  read_keys_error c i zero buf s s₁ n g l = absurd (omega arith)
  read_keys_error c i (suc f) buf s s₁ n g l = rw (g, ◌>>=◌) (rw (key_of-error c i n) refl)
