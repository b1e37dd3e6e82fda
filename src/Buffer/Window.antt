-- ===== src/Buffer/Window.antt =====
-- The run of an array from an index on, which is what a buffer holds between its indices.
use cpp_nio_socket.Common.{
  ℕ, ◌+◌, ◌-◌, ◌≤◌, ◌≡◌, refl, sym, ap, ◌∙◌, List, ◌++◌, arith, length, take, drop, length-take,
  length-drop, drop-take, take-take, take-append-drop, take-append_right, take-append_left,
  drop-append_left, take-all, drop-drop,
}
use cpp_nio_socket.Memory.{Width, size, set_chars, get_field}
use cpp_nio_socket.Memory.Laws.{set_chars_lem, decode, decode-append, get_field-eq-decode}

abbrev pub window : List ℕ → ℕ → ℕ → List ℕ
window m i n = take n (drop i m)

pub length-window : (m : List ℕ) (i n : ℕ) → i + n ≤ length m → length (window m i n) ≡ n
length-window m i n h = omega (arith, length-take n (drop i m), length-drop i m)

-- A window depends on the array up to its end.
pub window-take : (m : List ℕ) (i n c : ℕ) → i + n ≤ c → window (take c m) i n ≡ window m i n
window-take m i n c h = rw (drop-take i c m) (take-take n (c - i) (drop i m) (omega arith))

window-add :
    (m : List ℕ) (i a b : ℕ)
    → i + a + b ≤ length m
    → window m i (a + b) ≡ window m i a ++ window m (i + a) b
window-add m i a b h =
    let n : length (take a (drop i m)) ≡ a = length-window m i a (omega arith) in
    let e : a + b - a ≡ b = omega arith in
    ap (take (a + b)) (sym (take-append-drop a (drop i m)))
    ∙ take-append_right (a + b) (take a (drop i m)) (drop a (drop i m)) (omega (arith, n))
    ∙ rw (n, e, drop-drop a i m) refl

pub drop-window :
    (m : List ℕ) (i n k : ℕ) → k ≤ n → drop k (window m i n) ≡ window m (i + k) (n - k)
drop-window m i n k h = rw (drop-take k n (drop i m), drop-drop k i m) refl

-- Bytes copied to the end of a window extend it.
pub window-set_chars :
    (m : List ℕ) (i n : ℕ) (cs : List ℕ)
    → i + n + length cs ≤ length m
    → window (set_chars m (i + n) cs) i (n + length cs) ≡ window m i n ++ cs
window-set_chars m i n cs h =
    let head = drop i (take (i + n) m) in
    let tail = drop (i + n + length cs) m in
    let e : i + n - i ≡ n = omega arith in
    let e' : n + length cs - n ≡ length cs = omega arith in
    let k : length (take (i + n) m) ≡ i + n = omega (arith, length-take (i + n) m) in
    let head_window : head ≡ window m i n = drop-take i (i + n) m ∙ ap (λ j. take j (drop i m)) e in
    let n' : length (window m i n) ≡ n = length-window m i n (omega arith) in
    ap (λ (l : List ℕ). window l i (n + length cs)) (set_chars_lem m (i + n) cs h)
    ∙ ap (take (n + length cs))
        (drop-append_left i (take (i + n) m) (cs ++ tail) (omega (arith, k)))
    ∙ ap (λ (l : List ℕ). take (n + length cs) (l ++ (cs ++ tail))) head_window
    ∙ take-append_right (n + length cs) (window m i n) (cs ++ tail) (omega (arith, n'))
    ∙ ap (λ j. window m i n ++ take (n + length cs - j) (cs ++ tail)) n'
    ∙ ap (λ j. window m i n ++ take j (cs ++ tail)) e'
    ∙ ap (λ l. window m i n ++ l)
        (take-append_left (length cs) cs tail (omega arith) ∙ take-all (length cs) cs (omega arith))

-- A field inside a window is a field of its bytes.
pub get_field-window :
    (w : Width) (m : List ℕ) (i n : ℕ)
    → size w ≤ n
    → i + n ≤ length m
    → get_field w m i ≡ decode w (window m i n)
get_field-window w m i n h k =
    get_field-eq-decode w m i
    ∙ ap (decode w) (sym (take-append-drop n (drop i m)))
    ∙ decode-append w (window m i n) (drop n (drop i m)) (omega (arith, length-window m i n k))
