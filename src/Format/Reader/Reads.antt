-- ===== src/Format/Reader/Reads.antt =====
-- What a reading action does where its bytes lie ahead of the cursor, with a rule for `>>=`.
use hamane_db.Base.{
  ℕ, ◌+◌, ◌-◌, ◌*◌, ◌%◌, ◌^◌, ◌≤◌, ◌<◌, ◌≡◌, refl, sym, ◌∙◌, ap, subst, true, List, [], ◌∷◌, ◌++◌,
  append_assoc, append-nil, if◌then◌else◌, length, length-append, take, drop, take-append,
  drop-append, drop-drop, length-drop, le_bytes, length-le_bytes, from_le_bytes,
  from_le_bytes-le_bytes, word_limit, All, arith,
}
use hamane_db.Base.Outcome.{ok}
use hamane_db.Core.Record.{Text}
use hamane_db.Format.Utf8.{is_utf8}
use hamane_db.Format.Reader.{
  Reader, Read, ◌>>=◌, pure, fail, reader, remaining, is_empty, take_bytes, read_word, chunks,
  words, f32_vec, read_string, put_u8, put_u32, put_u64, put_f32_slice, put_string,
}

-- The cursor stands before `bs`, and nothing follows them.
pub record At (r : Reader) (bs : List ℕ) : Type 0 where
  pub inside : r.pos ≤ length r.buf
  pub ahead : drop r.pos r.buf ≡ bs

-- `m` takes exactly `bs` from whatever begins with them, and returns `a`.
pub record Reads {ℓ} {A : Type ℓ} (m : Read A) (bs : List ℕ) (a : A) : Type ℓ where
  pub run :
      (r : Reader) (rest : List ℕ)
      → At r (bs ++ rest)
      → (r' : Reader) × (m r ≡ ok (a, r')) × At r' rest

pub At-reader : (bs : List ℕ) → At (reader bs) bs
At-reader bs = record { inside = omega arith; ahead = refl }

pub remaining-At : (r : Reader) (bs : List ℕ) → At r bs → remaining r ≡ length bs
unfolding remaining
remaining-At r bs at = sym (length-drop r.pos r.buf) ∙ ap length at.ahead

length-ahead : (r : Reader) (bs : List ℕ) → At r bs → length r.buf - r.pos ≡ length bs
unfolding remaining
length-ahead r bs at = remaining-At r bs at

pub is_empty-At : (r : Reader) → At r [] → is_empty r ≡ true
unfolding is_empty
is_empty-At r at = ground (arith, remaining-At r [] at)

pub Reads-pure {ℓ} : {A : Type ℓ} (a : A) → Reads (pure a) [] a
unfolding pure
Reads-pure a = record { run = λ r rest at. (r, refl, at) }

pub bind_ok {ℓ κ} :
    {A : Type ℓ} {B : Type κ} (m : Read A) (f : A → Read B) (r : Reader) {a : A} {r' : Reader}
    → m r ≡ ok (a, r')
    → (m >>= f) r ≡ f a r'
unfolding ◌>>=◌
bind_ok m f r e = rw (e, ◌>>=◌)

pub Reads-bind {ℓ κ} :
    {A : Type ℓ} {B : Type κ} (m : Read A) (f : A → Read B) {bs cs : List ℕ} {a : A} {b : B}
    → Reads m bs a
    → Reads (f a) cs b
    → Reads (m >>= f) (bs ++ cs) b
Reads-bind m f {bs = bs} {cs = cs} hm hf = record {
  run = λ r rest at.
      let (r', e, at') = hm.run r (cs ++ rest) (subst (At r) (append_assoc bs cs rest) at) in
      let (r'', e', at'') = hf.run r' rest at' in (r'', bind_ok m f r e ∙ e', at'');
}

take_bytes_inside :
    (n : ℕ) (r : Reader)
    → n ≤ remaining r
    → take_bytes n r ≡ ok (take n (drop r.pos r.buf), record r { pos = r.pos + n })
unfolding take_bytes
take_bytes_inside n r h = ground arith

take-ahead :
    (bs rest : List ℕ) (r : Reader) → At r (bs ++ rest) → take (length bs) (drop r.pos r.buf) ≡ bs
take-ahead bs rest r at = ap (take (length bs)) at.ahead ∙ take-append bs rest

drop-ahead :
    (bs rest : List ℕ) (r : Reader) → At r (bs ++ rest) → drop (r.pos + length bs) r.buf ≡ rest
drop-ahead bs rest r at =
    sym (drop-drop r.pos (length bs) r.buf) ∙ ap (drop (length bs)) at.ahead ∙ drop-append bs rest

ahead_fits :
    (bs rest : List ℕ) (r : Reader)
    → At r (bs ++ rest)
    → length bs + length rest ≡ length r.buf - r.pos
ahead_fits bs rest r at = sym (length-append bs rest) ∙ sym (length-ahead r (bs ++ rest) at)

take_ahead_ok :
    (bs rest : List ℕ) (r : Reader)
    → At r (bs ++ rest)
    → take_bytes (length bs) r ≡ ok (bs, record r { pos = r.pos + length bs })
unfolding remaining
take_ahead_ok bs rest r at =
    take_bytes_inside (length bs) r (omega (arith, ahead_fits bs rest r at))
    ∙ ap (λ (l : List ℕ). ok (l, record r { pos = r.pos + length bs })) (take-ahead bs rest r at)

pub Reads-take : (bs : List ℕ) → Reads (take_bytes (length bs)) bs bs
Reads-take bs = record {
  run = λ r rest at. (
    record r { pos = r.pos + length bs },
    take_ahead_ok bs rest r at,
    record {
      inside = omega (arith, at.inside, ahead_fits bs rest r at);
      ahead = drop-ahead bs rest r at;
    },
  );
}

pub Reads-take_of : (bs : List ℕ) (n : ℕ) → length bs ≡ n → Reads (take_bytes n) bs bs
Reads-take_of bs n h = subst (λ k. Reads (take_bytes k) bs bs) h (Reads-take bs)

pub Reads-cast {ℓ} :
    {A : Type ℓ} {m : Read A} {bs cs : List ℕ} {a : A} → bs ≡ cs → Reads m bs a → Reads m cs a
Reads-cast {m = m} {a = a} e h = subst (λ l. Reads m l a) e h

pub Reads-value {ℓ} :
    {A : Type ℓ} {m : Read A} {bs : List ℕ} {a b : A} → a ≡ b → Reads m bs a → Reads m bs b
Reads-value {m = m} {bs = bs} e h = subst (Reads m bs) e h

-- After the last action that takes bytes.
pub Reads-last {ℓ κ} :
    {A : Type ℓ} {B : Type κ} (m : Read A) (f : A → Read B) {bs : List ℕ} {a : A} {b : B}
    → Reads m bs a
    → Reads (f a) [] b
    → Reads (m >>= f) bs b
Reads-last m f {bs = bs} hm hf = Reads-cast (append-nil bs) (Reads-bind m f hm hf)

pub Reads-map {ℓ κ} :
    {A : Type ℓ} {B : Type κ} (m : Read A) (g : A → B) (bs : List ℕ) {a : A}
    → Reads m bs a
    → Reads (m >>= λ x. pure (g x)) bs (g a)
Reads-map m g bs {a = a} h = Reads-last m (λ x. pure (g x)) h (Reads-pure (g a))

pub Reads-word : (w v : ℕ) → v < word_limit w → Reads (read_word w) (le_bytes w v) v
unfolding read_word
Reads-word w v h = subst (Reads (read_word w) (le_bytes w v)) (from_le_bytes-le_bytes w v h) (
    Reads-map (take_bytes w) from_le_bytes (le_bytes w v)
      (Reads-take_of (le_bytes w v) w (length-le_bytes w v)))

pub Reads-u8 : (v : ℕ) → v < 256 → Reads (read_word 1) (v ∷ []) v
unfolding le_bytes
Reads-u8 v h = subst (λ b. Reads (read_word 1) (b ∷ []) v) small (Reads-word 1 v (omega arith))
  where
    small : v % 256 ≡ v
    small = omega arith

-- The four bytes of each number.
abbrev pub f32_bytes : List ℕ → List ℕ
f32_bytes [] = []
f32_bytes (x ∷ xs) = le_bytes 4 x ++ f32_bytes xs

abbrev pub IsF32 : ℕ → Type 0
IsF32 x = x < 2 ^ 32

pub length-f32_bytes : (xs : List ℕ) → length (f32_bytes xs) ≡ length xs * 4
length-f32_bytes [] = refl
length-f32_bytes (x ∷ xs) =
    omega
      (arith, length-append (le_bytes 4 x) (f32_bytes xs), length-le_bytes 4 x, length-f32_bytes xs)

pub words-chunks : (xs : List ℕ) → All IsF32 xs → words (chunks (length xs) (f32_bytes xs)) ≡ xs
unfolding words chunks le_bytes
words-chunks [] h = refl
words-chunks (x ∷ xs) h = cc (from_le_bytes-le_bytes 4 x h.0, words-chunks xs h.1)

pub Reads-f32_vec : (xs : List ℕ) → All IsF32 xs → Reads (f32_vec (length xs)) (f32_bytes xs) xs
unfolding f32_vec
Reads-f32_vec xs h = subst (Reads (f32_vec (length xs)) (f32_bytes xs)) (words-chunks xs h) (
    Reads-map (take_bytes (length xs * 4)) (λ bytes. words (chunks (length xs) bytes))
      (f32_bytes xs) (Reads-take_of (f32_bytes xs) (length xs * 4) (length-f32_bytes xs)))

-- A `String` that can be written: valid UTF-8 bytes, fewer than 2 ^ 32.
pub record IsText (s : Text) : Type 0 where
  pub utf8 : is_utf8 s ≡ true
  pub short : length s < 2 ^ 32

abbrev pub text_bytes : Text → List ℕ
text_bytes s = le_bytes 4 (length s) ++ s

Reads-checked : (s : Text) → is_utf8 s ≡ true → Reads (if is_utf8 s then pure s else fail) [] s
Reads-checked s h = rw h (Reads-pure s)

pub Reads-string : (s : Text) → IsText s → Reads read_string (text_bytes s) s
unfolding read_string
Reads-string s h = Reads-bind (read_word 4) _ (Reads-word 4 (length s) (omega (arith, h.short))) (
    Reads-last (take_bytes (length s)) (λ bytes. if is_utf8 bytes then pure bytes else fail)
      (Reads-take s) (Reads-checked s h.utf8))

-- What the `put_` functions append.
pub put_u8-append : (out : List ℕ) (v : ℕ) → put_u8 out v ≡ out ++ (v ∷ [])
unfolding put_u8
put_u8-append out v = refl

pub put_u32-append : (out : List ℕ) (v : ℕ) → put_u32 out v ≡ out ++ le_bytes 4 v
unfolding put_u32
put_u32-append out v = refl

pub put_u64-append : (out : List ℕ) (v : ℕ) → put_u64 out v ≡ out ++ le_bytes 8 v
unfolding put_u64
put_u64-append out v = refl

pub put_f32_slice-append : (out xs : List ℕ) → put_f32_slice out xs ≡ out ++ f32_bytes xs
unfolding put_f32_slice
put_f32_slice-append out [] = sym (append-nil out)
put_f32_slice-append out (x ∷ xs) =
    put_f32_slice-append (out ++ le_bytes 4 x) xs ∙ append_assoc out (le_bytes 4 x) (f32_bytes xs)

pub put_string-append :
    (out : List ℕ) (s : Text) → IsText s → put_string out s ≡ out ++ text_bytes s
unfolding put_string
put_string-append out s h =
    subst (λ k. (out ++ le_bytes 4 k) ++ s ≡ out ++ text_bytes s) small
      (append_assoc out (le_bytes 4 (length s)) s)
  where
    small : length s ≡ length s % 2 ^ 32
    small = omega (arith, h.short)
