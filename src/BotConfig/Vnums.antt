-- ===== src/BotConfig/Vnums.antt =====
-- linux/host/ntpl/botconfig.py: the sorted set of the vnums.
use nostale_packet_logger.Base.{
  suc, ◌≤◌, ◌≡◌, refl, inl, inr, false, List, [], ◌∷◌, arith, All, length, Bool-cases,
}
use nostale_packet_logger.Base.Int.{ℤ, pos, negsuc, int_beq, ◌<ℤ◌, ltb_ℤ, int_beq_iff}
use nostale_packet_logger.Base.Keys.{int_eq, text_eq}
use nostale_packet_logger.BotConfig.Read.{sorted_set, insert_vnum}
use nostale_packet_logger.BotConfig.Limits.{Ascending}

All-insert_vnum : (P : ℤ → Type 0) (n : ℤ) (ms : List ℤ) → P n → All P ms → All P (insert_vnum n ms)
unfolding insert_vnum
All-insert_vnum P n [] h hs = (h, tt)
All-insert_vnum P n (m ∷ ms) h hs = elim (Bool-cases (int_beq n m)) [
  | inl same ↦ rw same hs
  | inr other ↦ elim (Bool-cases (ltb_ℤ n m)) [
    | inl less ↦ rw (other, less) (h, hs)
    | inr more ↦ rw (other, more) (hs.0, All-insert_vnum P n ms h hs.1)
  ]
]

All-less : (n m : ℤ) (ms : List ℤ) → n <ℤ m → All (λ k. m <ℤ k) ms → All (λ k. n <ℤ k) ms
All-less n m [] h hs = tt
All-less n m (k ∷ ms) h (hk, hs) = (omega arith, All-less n m ms h hs)

after : (n m : ℤ) → int_beq n m ≡ false → ltb_ℤ n m ≡ false → m <ℤ n
after (pos n) (pos m) h k = ground arith
after (pos n) (negsuc m) h k = ground arith
after (negsuc n) (pos m) h k = ground arith
after (negsuc n) (negsuc m) h k = ground arith

insert_vnum-Ascending : (n : ℤ) (ms : List ℤ) → Ascending ms → Ascending (insert_vnum n ms)
unfolding insert_vnum
insert_vnum-Ascending n [] h = (tt, tt)
insert_vnum-Ascending n (m ∷ ms) (hm, hms) = elim (Bool-cases (int_beq n m)) [
  | inl same ↦ rw same (hm, hms)
  | inr other ↦ elim (Bool-cases (ltb_ℤ n m)) [
    | inl less ↦
        let first : n <ℤ m = ground arith in
        rw (other, less) ((first, All-less n m ms first hm), (hm, hms))
    | inr more ↦
        let last : m <ℤ n = after n m other more in
        rw (other, more)
          (All-insert_vnum (λ k. m <ℤ k) n ms last hm, insert_vnum-Ascending n ms hms)
  ]
]

length-insert_vnum : (n : ℤ) (ms : List ℤ) → length (insert_vnum n ms) ≤ suc (length ms)
unfolding insert_vnum
length-insert_vnum n [] = omega arith
length-insert_vnum n (m ∷ ms) = ground (arith, length-insert_vnum n ms)

pub length-sorted_set : (ns : List ℤ) → length (sorted_set ns) ≤ length ns
unfolding sorted_set
length-sorted_set [] = omega arith
length-sorted_set (n ∷ ns) =
    omega (arith, length-insert_vnum n (sorted_set ns), length-sorted_set ns)

pub sorted_set-Ascending : (ns : List ℤ) → Ascending (sorted_set ns)
unfolding sorted_set
sorted_set-Ascending [] = tt
sorted_set-Ascending (n ∷ ns) = insert_vnum-Ascending n (sorted_set ns) (sorted_set-Ascending ns)

pub All-sorted_set : (P : ℤ → Type 0) (ns : List ℤ) → All P ns → All P (sorted_set ns)
unfolding sorted_set
All-sorted_set P [] h = tt
All-sorted_set P (n ∷ ns) (h, hs) = All-insert_vnum P n (sorted_set ns) h (All-sorted_set P ns hs)

-- A list that is in order already stays.
insert_vnum-front : (n : ℤ) (ms : List ℤ) → All (λ m. n <ℤ m) ms → insert_vnum n ms ≡ n ∷ ms
unfolding insert_vnum
insert_vnum-front n [] h = refl
insert_vnum-front n (m ∷ ms) h = ground (arith, int_beq_iff n m)

pub sorted_set-id : (ns : List ℤ) → Ascending ns → sorted_set ns ≡ ns
unfolding sorted_set
sorted_set-id [] h = refl
sorted_set-id (n ∷ ns) h = rw (sorted_set-id ns h.1) (insert_vnum-front n ns h.0)
