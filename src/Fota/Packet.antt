-- ===== src/Fota/Packet.antt =====
-- One packet in esp8266/app/fota.cpp: inside the header, at its end, or behind it.
use esp8266_xcode.Base.{
  ℕ, suc, ◌+◌, ◌-◌, ◌≤◌, ◌<◌, ◌^◌, List, [], ◌∷◌, ◌++◌, none, some, true, false, ◌==◌, ◌≡◌, refl,
  sym, ap, ap₂, ◌∙◌, arith, length, drop, All, inl, length-append, append_assoc, drop-append,
  drop_of_length_le, drop-length-append,
}
use esp8266_xcode.Base.Int.{ℤ, pos}
use esp8266_xcode.Lost.Number.{strtol}
use esp8266_xcode.Lost.Number.Laws.{print_int, strtol-print_int}
use esp8266_xcode.Ota.{is_int}
use esp8266_xcode.Ota.Flash.{image}
use esp8266_xcode.Fota.{
  Context, find, header_end, length_key, size_of, recv_body, recv_rest, recv_header, recv_known,
}
use esp8266_xcode.Fota.Find.{find-append}
use esp8266_xcode.Fota.Body.{body, recv_body-size}

-- A header that announces `n` bytes and ends where its first empty line ends.
pub record IsHead (n : ℕ) (head : List ℕ) : Type 0 where
  pub before : List ℕ
  pub after : List ℕ
  pub text : head ≡ before ++ (length_key ++ (print_int (pos n) ++ (13 ∷ 10 ∷ after)))
  pub first_key : find length_key head ≡ some (length before)
  pub end_at : ℕ
  pub first_end : find header_end head ≡ some end_at
  pub ends : end_at + 4 ≡ length head

size_of-IsHead :
    (n : ℕ) (head rest : List ℕ)
    → IsHead n head
    → n < 2 ^ 31
    → size_of (head ++ rest) (pos 0) ≡ pos n
unfolding size_of
size_of-IsHead n head rest h k =
    rw (size_of, find-append length_key head rest (length h.before) h.first_key)
      (ap (λ t. (strtol t 10).0) behind
        ∙ ap (λ r. r.0)
            (strtol-print_int (pos n) ((13 ∷ 10 ∷ h.after) ++ rest) (k, omega arith)
              ((λ e. absurd (omega arith)), inl (omega arith))))
  where
    number : List ℕ
    number = print_int (pos n) ++ (13 ∷ 10 ∷ h.after)

    behind :
        drop (length h.before + 16) (head ++ rest)
        ≡ print_int (pos n) ++ ((13 ∷ 10 ∷ h.after) ++ rest)
    behind =
        ap (λ t. drop (length h.before + 16) (t ++ rest)) h.text
        ∙ ap (λ t. drop (length h.before + 16) t)
            (append_assoc h.before (length_key ++ number) rest)
        ∙ drop-append (length h.before + 16) h.before ((length_key ++ number) ++ rest)
        ∙ ap₂ ◌++◌ (drop_of_length_le (length h.before + 16) h.before (omega arith)) (
            ap (λ k. drop k ((length_key ++ number) ++ rest))
              {x = length h.before + 16 - length h.before} {y = 16} (omega arith))
        ∙ append_assoc (print_int (pos n)) (13 ∷ 10 ∷ h.after) rest

-- Two ways to cut the same text.
pub cut :
    (p ps more rest : List ℕ)
    → p ++ ps ≡ more ++ rest
    → length p ≤ length more
    → (more ≡ p ++ drop (length p) more) × (ps ≡ drop (length p) more ++ rest)
cut [] ps more rest e h = (refl, e)
cut (x ∷ p) ps [] rest e h = absurd (omega arith)
cut (x ∷ p) ps (y ∷ more) rest e h =
    let (m, r) = cut p ps more rest (ap (λ l. drop 1 l) e) (omega arith) in
    (ap₂ ◌∷◌ (sym (head_eq e)) m, r)
  where
    head_of : List ℕ → ℕ
    head_of [] = 0
    head_of (a ∷ l) = a

    head_eq : x ∷ (p ++ ps) ≡ y ∷ (more ++ rest) → x ≡ y
    head_eq e = ap head_of e

pub recv_known-body :
    (n : ℕ) (c : Context) (p : List ℕ)
    → c.image.size ≡ pos (suc n)
    → recv_known c p ≡ some (recv_body c p)
unfolding recv_known
recv_known-body n c p h = rw (recv_known, known)
  where
    known : is_int c.image.size 0 ≡ false
    known = ap (λ z. is_int z 0) h ∙ ground arith

size_unknown : (c : Context) → c.image.size ≡ pos 0 → is_int c.image.size 0 ≡ true
size_unknown c h = ap (λ z. is_int z 0) h

-- A packet that ends inside the header.
pub recv_known_inside :
    (c : Context) (p : List ℕ)
    → c.image.size ≡ pos 0
    → find header_end (c.header ++ p) ≡ none
    → recv_known c p ≡ some (record c { header = c.header ++ p }, [])
unfolding recv_known recv_header
recv_known_inside c p h e = rw (recv_known, size_unknown c h, recv_header, e)

-- A packet in which the header ends.
pub recv_known_end :
    (n : ℕ) (c : Context) (more r head : List ℕ)
    → IsHead (suc n) head
    → head ≡ c.header ++ more
    → c.image.size ≡ pos 0
    → suc n < 2 ^ 31
    → recv_known c (more ++ r) ≡ some (recv_rest c (pos (suc n)) r)
unfolding recv_known recv_header
recv_known_end n c more r head is whole h k =
    rw (recv_known, size_unknown c h, recv_header, found, sized, behind) (ground (arith, end_at))
  where
    text : c.header ++ (more ++ r) ≡ head ++ r
    text = sym (append_assoc c.header more r) ∙ ap (λ t. t ++ r) (sym whole)

    found : find header_end (c.header ++ (more ++ r)) ≡ some is.end_at
    found = ap (λ t. find header_end t) text ∙ find-append header_end head r is.end_at is.first_end

    sized : size_of (c.header ++ (more ++ r)) c.image.size ≡ pos (suc n)
    sized = ap₂ size_of text h ∙ size_of-IsHead (suc n) head r is k

    end_at : is.end_at + 4 ≡ length c.header + length more
    end_at = is.ends ∙ ap length whole ∙ length-append c.header more

    behind : drop (is.end_at + 4 - length c.header) (more ++ r) ≡ r
    behind =
        ap (λ k. drop k (more ++ r)) {y = length more} (omega (arith, end_at))
        ∙ drop-length-append more r

recv_rest_cons :
    (c : Context) (size : ℤ) (x : ℕ) (r : List ℕ)
    → recv_rest c size (x ∷ r)
      ≡ recv_body (record { image = record c.image { size = size }; header = [] }) (x ∷ r)
unfolding recv_rest recv_body
recv_rest_cons c size x r = rw ne
  where
    ne : (suc (length r) == 0) ≡ false
    ne = ground arith

pub recv_rest-size :
    (c : Context) (size : ℤ) (r : List ℕ) → (recv_rest c size r).0.image.size ≡ size
unfolding recv_rest
recv_rest-size c size [] = refl
recv_rest-size c size (x ∷ r) =
    ap (λ q. q.0.image.size) (recv_rest_cons c size x r)
    ∙ recv_body-size (record { image = record c.image { size = size }; header = [] }) (x ∷ r)

pub recv_rest-body :
    (c : Context) (size : ℤ) (r : List ℕ) (ps : List (List ℕ))
    → let c' : Context = record { image = record c.image { size = size }; header = [] } in
      (qs : List (List ℕ)) × (image qs ≡ r ++ image ps)
      × ((m : ℕ) → length r ≤ m → All (λ p. length p ≤ m) ps → All (λ p. length p ≤ m) qs)
      × ((body (recv_rest c size r).0 ps).0 ≡ (body c' qs).0)
      × ((recv_rest c size r).1 ++ (body (recv_rest c size r).0 ps).1 ≡ (body c' qs).1)
unfolding recv_rest body image
recv_rest-body c size [] ps = (ps, refl, (λ m h k. k), refl, refl)
recv_rest-body c size (x ∷ r) ps = (
  (x ∷ r) ∷ ps,
  refl,
  (λ m h k. (h, k)),
  ap (λ q. (body q.0 ps).0) (recv_rest_cons c size x r),
  ap (λ q. q.1 ++ (body q.0 ps).1) (recv_rest_cons c size x r),
)
