-- ===== src/HttpSession/Buffer.antt =====
-- The buffer of recvRequest as a list of bytes.
use exhy.Common.Text.{Bytes}
use exhy.Common.{ℕ, zero, suc, ◌≡◌, refl, sym, ap, ◌∙◌, [], ◌∷◌, ◌++◌, take, drop, append_assoc}

take-drop : (n : ℕ) (xs : Bytes) → take n xs ++ drop n xs ≡ xs
take-drop zero xs = refl
take-drop (suc n) [] = refl
take-drop (suc n) (x ∷ xs) = ap (◌∷◌ x) (take-drop n xs)

-- A buffer that is filled up and emptied from the front still has the bytes in order.
pub refilled :
    (text chunk got : Bytes) (n : ℕ) (eaten left : Bytes)
    → drop n (text ++ chunk) ++ got ≡ eaten ++ left
    → text ++ (chunk ++ got) ≡ (take n (text ++ chunk) ++ eaten) ++ left
refilled text chunk got n eaten left w =
    let front = take n (text ++ chunk) in
    let back = drop n (text ++ chunk) in
    sym (append_assoc text chunk got)
    ∙ ap (λ z. z ++ got) (sym (take-drop n (text ++ chunk)))
    ∙ append_assoc front back got
    ∙ ap (λ z. front ++ z) w
    ∙ sym (append_assoc front eaten left)
