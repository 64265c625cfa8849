-- ===== src/LinkedList/Tests.antt =====
-- A list of two entries, 10 and 20, with its head at 1.
use k_os.Base.{ℕ, ◌≡◌, ◌↔◌, true, List, [], ◌∷◌, ◌==◌, if◌then◌else◌, arith}
use k_os.LinkedList.{Links, list_empty, list_add, list_rm}
use k_os.LinkedList.Ring.{IsRing, list_empty_iff, list_add-IsRing, list_rm-IsRing}

abbrev two : Links
two = record {
  next = λ a. if a == 1 then 10 else if a == 10 then 20 else 1;
  prev = λ a. if a == 1 then 20 else if a == 10 then 1 else 10;
}

abbrev ten_twenty : List ℕ
ten_twenty = 10 ∷ 20 ∷ []

two-IsRing : IsRing two 1 (10 ∷ 20 ∷ [])
two-IsRing = ground arith

list_empty_example : (list_empty two 1 ≡ true) ↔ (ten_twenty ≡ [])
list_empty_example = list_empty_iff two 1 ten_twenty two-IsRing

list_add_example : IsRing (list_add two 30 1) 1 (30 ∷ 10 ∷ 20 ∷ [])
list_add_example = list_add-IsRing two 1 30 (10 ∷ 20 ∷ []) two-IsRing (ground arith)

list_rm_example : IsRing (list_rm two 20) 1 (10 ∷ [])
list_rm_example = list_rm-IsRing two 1 20 (10 ∷ []) [] two-IsRing
