-- ===== src/DeadLetters/Orders.antt =====
-- The events of a stream of backend/app/services/reliability/dead_letter_queue.py, and lists in reverse.
use polymarket_agent.Common.{◌≡◌, ◌++◌, ◌∙◌, ap, refl, List, [], ◌∷◌, arith, length, length-append}
use polymarket_agent.DeadLetters.{Entry, Stream}

abbrev pub entries : Stream → List Entry
entries [] = []
entries ((id, e) ∷ s) = e ∷ entries s

abbrev pub reverse : List Entry → List Entry
reverse [] = []
reverse (e ∷ es) = reverse es ++ e ∷ []

pub append-nil : (es : List Entry) → es ++ [] ≡ es
append-nil [] = refl
append-nil (e ∷ es) = ap (λ xs. e ∷ xs) (append-nil es)

pub append_assoc : (xs ys zs : List Entry) → (xs ++ ys) ++ zs ≡ xs ++ (ys ++ zs)
append_assoc [] ys zs = refl
append_assoc (x ∷ xs) ys zs = ap (λ es. x ∷ es) (append_assoc xs ys zs)

pub reverse-append : (es : List Entry) (e : Entry) → reverse (es ++ e ∷ []) ≡ e ∷ reverse es
reverse-append [] e = refl
reverse-append (x ∷ es) e = ap (λ xs. xs ++ x ∷ []) (reverse-append es e)

pub reverse-reverse : (es : List Entry) → reverse (reverse es) ≡ es
reverse-reverse [] = refl
reverse-reverse (e ∷ es) = reverse-append (reverse es) e ∙ ap (λ xs. e ∷ xs) (reverse-reverse es)

pub length-reverse : (es : List Entry) → length (reverse es) ≡ length es
length-reverse [] = refl
length-reverse (e ∷ es) = omega (arith, length-append (reverse es) (e ∷ []), length-reverse es)

pub length-entries : (s : Stream) → length (entries s) ≡ length s
length-entries [] = refl
length-entries ((id, e) ∷ s) = omega (arith, length-entries s)
