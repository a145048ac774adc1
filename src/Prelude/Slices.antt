-- ===== src/Prelude/Slices.antt =====
-- Slice assignment into a buffer, `buf[at : at + len(xs)] = xs`, position by position.
use Prim.Native.Nat.{ℕ, zero, suc, ◌+◌, ◌≤◌, ◌<◌}
use mathlib.Core.Path.{◌≡◌, refl, ap}
use mathlib.Core.List.{List, [], ◌∷◌, ◌++◌}
use native.Mathlib.Omega.{arith}
use open_vix_disk_lib.Prelude.Lists.{length, get_elem?, take, drop}

-- What lies past the end of the buffer is not written.
unfoldable pub blit : ℕ → List ℕ → List ℕ → List ℕ
blit zero [] buf = buf
blit zero (x ∷ xs) [] = []
blit zero (x ∷ xs) (b ∷ bs) = x ∷ blit zero xs bs
blit (suc i) xs [] = []
blit (suc i) xs (b ∷ bs) = b ∷ blit i xs bs

pub length-blit : (i : ℕ) (xs buf : List ℕ) → length (blit i xs buf) ≡ length buf
unfolding blit
length-blit zero [] buf = refl
length-blit zero (x ∷ xs) [] = refl
length-blit zero (x ∷ xs) (b ∷ bs) = ap suc (length-blit zero xs bs)
length-blit (suc i) xs [] = refl
length-blit (suc i) xs (b ∷ bs) = ap suc (length-blit i xs bs)

pub blit_nil : (i : ℕ) (buf : List ℕ) → blit i [] buf ≡ buf
unfolding blit
blit_nil zero buf = refl
blit_nil (suc i) [] = refl
blit_nil (suc i) (b ∷ bs) = ap (λ t. b ∷ t) (blit_nil i bs)

-- Two writes side by side are one.
pub blit-blit :
    (i j : ℕ) (xs ys buf : List ℕ)
    → j ≡ i + length xs
    → i + length xs ≤ length buf
    → blit j ys (blit i xs buf) ≡ blit i (xs ++ ys) buf
unfolding blit
blit-blit zero zero [] ys buf e h = refl
blit-blit zero (suc j) [] ys buf e h = absurd (omega arith)
blit-blit zero zero (x ∷ xs) ys buf e h = absurd (omega arith)
blit-blit zero (suc j) (x ∷ xs) ys [] e h = absurd (omega arith)
blit-blit zero (suc j) (x ∷ xs) ys (b ∷ bs) e h =
    ap (λ t. x ∷ t) (blit-blit zero j xs ys bs (omega arith) (omega arith))
blit-blit (suc i) zero xs ys buf e h = absurd (omega arith)
blit-blit (suc i) (suc j) xs ys [] e h = absurd (omega arith)
blit-blit (suc i) (suc j) xs ys (b ∷ bs) e h =
    ap (λ t. b ∷ t) (blit-blit i j xs ys bs (omega arith) (omega arith))

pub blit_whole : (xs buf : List ℕ) → length xs ≡ length buf → blit 0 xs buf ≡ xs
unfolding blit
blit_whole [] [] h = refl
blit_whole [] (b ∷ bs) h = absurd (omega arith)
blit_whole (x ∷ xs) [] h = absurd (omega arith)
blit_whole (x ∷ xs) (b ∷ bs) h = ap (λ t. x ∷ t) (blit_whole xs bs (omega arith))

pub get_elem?-blit_before :
    (i : ℕ) (xs buf : List ℕ) (k : ℕ) → k < i → get_elem? (blit i xs buf) k ≡ get_elem? buf k
unfolding blit
get_elem?-blit_before zero xs buf k h = absurd (omega arith)
get_elem?-blit_before (suc i) xs [] k h = refl
get_elem?-blit_before (suc i) xs (b ∷ bs) zero h = refl
get_elem?-blit_before (suc i) xs (b ∷ bs) (suc k) h = get_elem?-blit_before i xs bs k (omega arith)

pub get_elem?-blit_after :
    (i : ℕ) (xs buf : List ℕ) (k : ℕ)
    → i + length xs ≤ k
    → get_elem? (blit i xs buf) k ≡ get_elem? buf k
unfolding blit
get_elem?-blit_after zero [] buf k h = refl
get_elem?-blit_after zero (x ∷ xs) [] k h = refl
get_elem?-blit_after zero (x ∷ xs) (b ∷ bs) zero h = absurd (omega arith)
get_elem?-blit_after zero (x ∷ xs) (b ∷ bs) (suc k) h =
    get_elem?-blit_after zero xs bs k (omega arith)
get_elem?-blit_after (suc i) xs [] k h = refl
get_elem?-blit_after (suc i) xs (b ∷ bs) zero h = refl
get_elem?-blit_after (suc i) xs (b ∷ bs) (suc k) h = get_elem?-blit_after i xs bs k (omega arith)

pub get_elem?-blit_in :
    (i : ℕ) (xs buf : List ℕ) (k : ℕ)
    → k < length xs
    → i + length xs ≤ length buf
    → get_elem? (blit i xs buf) (i + k) ≡ get_elem? xs k
unfolding blit
get_elem?-blit_in i [] buf k h fits = absurd (omega arith)
get_elem?-blit_in zero (x ∷ xs) [] k h fits = absurd (omega arith)
get_elem?-blit_in zero (x ∷ xs) (b ∷ bs) zero h fits = refl
get_elem?-blit_in zero (x ∷ xs) (b ∷ bs) (suc k) h fits =
    ground (arith, get_elem?-blit_in zero xs bs k)
get_elem?-blit_in (suc i) (x ∷ xs) [] k h fits = absurd (omega arith)
get_elem?-blit_in (suc i) (x ∷ xs) (b ∷ bs) k h fits =
    ground (arith, get_elem?-blit_in i (x ∷ xs) bs k)

-- Behind the slice nothing is written.
pub drop-blit :
    (i : ℕ) (xs buf : List ℕ) (n : ℕ) → i + length xs ≤ n → drop n (blit i xs buf) ≡ drop n buf
unfolding blit
drop-blit zero [] buf n h = refl
drop-blit zero (x ∷ xs) [] n h = refl
drop-blit zero (x ∷ xs) (b ∷ bs) zero h = absurd (omega arith)
drop-blit zero (x ∷ xs) (b ∷ bs) (suc n) h = drop-blit zero xs bs n (omega arith)
drop-blit (suc i) xs [] n h = refl
drop-blit (suc i) xs (b ∷ bs) zero h = absurd (omega arith)
drop-blit (suc i) xs (b ∷ bs) (suc n) h = drop-blit i xs bs n (omega arith)

pub blit_front :
    (xs buf : List ℕ) → length xs ≤ length buf → blit 0 xs buf ≡ xs ++ drop (length xs) buf
unfolding blit
blit_front [] buf h = refl
blit_front (x ∷ xs) [] h = absurd (omega arith)
blit_front (x ∷ xs) (b ∷ bs) h = ap (λ t. x ∷ t) (blit_front xs bs (omega arith))

-- Reading the slice back.
pub take-drop-blit :
    (i : ℕ) (xs buf : List ℕ)
    → i + length xs ≤ length buf
    → take (length xs) (drop i (blit i xs buf)) ≡ xs
unfolding blit
take-drop-blit zero [] buf h = refl
take-drop-blit zero (x ∷ xs) [] h = absurd (omega arith)
take-drop-blit zero (x ∷ xs) (b ∷ bs) h = ap (λ t. x ∷ t) (take-drop-blit zero xs bs (omega arith))
take-drop-blit (suc i) xs [] h = absurd (omega arith)
take-drop-blit (suc i) xs (b ∷ bs) h = take-drop-blit i xs bs (omega arith)

-- Writing behind the front part.
pub blit_behind :
    (xs ys zs : List ℕ)
    → length ys ≤ length zs
    → blit (length xs) ys (xs ++ zs) ≡ (xs ++ ys) ++ drop (length ys) zs
unfolding blit
blit_behind [] ys zs h = blit_front ys zs h
blit_behind (x ∷ xs) ys zs h = ap (λ t. x ∷ t) (blit_behind xs ys zs h)
