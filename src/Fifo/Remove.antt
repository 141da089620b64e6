-- ===== src/Fifo/Remove.antt =====
-- `remove_node` takes the first node with the given key out of a list.
use preemptive_multi_tasked.Prelude.{
  ℕ, zero, suc, ◌<◌, ◌≡◌, inl, inr, refl, ◌∙◌, ◌≤◌, List, [], ◌∷◌, Option, none, some, arith,
  update, ◌==◌, if◌then◌else◌, length, true, false, Bool-cases,
}
use preemptive_multi_tasked.Fifo.{LinkedList, Next, dequeue, move_tail, remove_loop, remove_node}
use preemptive_multi_tasked.Fifo.Queue.{
  Fresh, Distinct, Links, last, last-ne, last-some, Links-frame, Fresh-update, IsQueue,
  dequeue-cons,
}

module _ (key : ℕ → ℕ) (tid : ℕ) where
  -- The first node whose key is `tid`.
  abbrev pub find : List ℕ → Option ℕ
  find [] = none
  find (t ∷ ts) = if key t == tid then some t else find ts

  -- The list without that node.
  abbrev pub drop_first : List ℕ → List ℕ
  drop_first [] = []
  drop_first (t ∷ ts) = let rest = drop_first ts in if key t == tid then ts else t ∷ rest

-- The walk stands at `itr`, in front of the nodes `ts`: what it returns and leaves behind.
record Walked (key : ℕ → ℕ) (tid : ℕ) (next : Next) (list : LinkedList) (itr : ℕ) (ts : List ℕ)
    (next' : Next) (list' : LinkedList) : Type 0 where
  head : list'.head ≡ list.head
  links : Links next' (next' itr) (drop_first key tid ts)
  tail : list'.tail ≡ last (itr ∷ drop_first key tid ts)
  same : (a : ℕ) → Fresh a (itr ∷ ts) → next' a ≡ next a

module _ (key : ℕ → ℕ) (tid : ℕ) (next : Next) (list : LinkedList) where
  move_tail-last :
      (itr x : ℕ) (ts : List ℕ)
      → Distinct (itr ∷ x ∷ ts)
      → list.tail ≡ last (itr ∷ x ∷ ts)
      → (move_tail x itr list).tail ≡ last (itr ∷ ts)
  move_tail-last itr x [] d e = ground arith
  move_tail-last itr x (y ∷ r) d e =
      let (z, f) = last-some y r in ground (arith, last-ne (y ∷ r) x z d.1.0 f)

  Walked-hit :
      (itr x : ℕ) (ts : List ℕ)
      → Links next (next itr) (x ∷ ts)
      → Distinct (itr ∷ x ∷ ts)
      → list.tail ≡ last (itr ∷ x ∷ ts)
      → (key x == tid) ≡ true
      → Walked key tid next list itr (x ∷ ts) (update next itr (next x)) (move_tail x itr list)
  Walked-hit itr x ts h d e hit = record {
    head = ground arith;
    links = rw hit (
        ground (
          arith,
          Links-frame next (update next itr (next x)) (next x) ts
              (Fresh-update next itr (next x) ts d.0.1) h.1,
        ));
    tail = rw hit (move_tail-last itr x ts d e);
    same = λ a q. ground (arith, q.0);
  }

  Walked-miss :
      (itr x : ℕ) (ts : List ℕ) (next' : Next) (list' : LinkedList)
      → next itr ≡ some x
      → Distinct (itr ∷ x ∷ ts)
      → (key x == tid) ≡ false
      → Walked key tid next list x ts next' list'
      → Walked key tid next list itr (x ∷ ts) next' list'
  Walked-miss itr x ts next' list' h d miss w = record {
    head = w.head;
    links = rw miss (w.same itr d.0 ∙ h, w.links);
    tail = rw miss w.tail;
    same = λ a q. w.same a q.1;
  }

  remove_loop-Walked :
      (fuel itr : ℕ) (ts : List ℕ)
      → length ts < fuel
      → Links next (next itr) ts
      → Distinct (itr ∷ ts)
      → list.tail ≡ last (itr ∷ ts)
      → (next' : Next) × (list' : LinkedList) × (remove_loop key fuel tid itr (next itr) list next
          ≡ some (find key tid ts, next', list'))
        × Walked key tid next list itr ts next' list'
  unfolding remove_loop
  remove_loop-Walked zero itr ts f h d e = elim f [ ]
  remove_loop-Walked (suc fuel) itr [] f h d e =
      (next, list, rw h, record { head = refl; links = h; tail = e; same = λ a q. refl })
  remove_loop-Walked (suc fuel) itr (x ∷ ts) f h d e = elim (Bool-cases (key x == tid)) [
    | inl hit ↦
        rw (h.0, hit)
          (update next itr (next x), move_tail x itr list, refl, Walked-hit itr x ts h d e hit)
    | inr miss ↦
        let (next', list', e', w) = remove_loop-Walked fuel x ts (omega arith) h.1 d.1 e in
        (next', list', rw (h.0, miss) e', Walked-miss itr x ts next' list' h.0 d miss w)
  ]

Fresh-drop_first :
    (key : ℕ → ℕ) (tid t : ℕ) (ts : List ℕ) → Fresh t ts → Fresh t (drop_first key tid ts)
Fresh-drop_first key tid t [] f = tt
Fresh-drop_first key tid t (x ∷ ts) f = ground (arith, Fresh-drop_first key tid t ts f.1)

Distinct-drop_first :
    (key : ℕ → ℕ) (tid : ℕ) (ts : List ℕ) → Distinct ts → Distinct (drop_first key tid ts)
Distinct-drop_first key tid [] d = tt
Distinct-drop_first key tid (x ∷ ts) d =
    ground (arith, Distinct-drop_first key tid ts d.1, Fresh-drop_first key tid x ts d.0)

-- `remove_node` returns the first node with the key, NULL if there is none; the other nodes form
-- a queue in their order, and the `next` of a node that was not in the list is unchanged.
pub record Removed (next : Next) (ts left : List ℕ) (next' : Next) (list' : LinkedList)
    : Type 0 where
  pub queue : IsQueue next' list' left
  pub same : (a : ℕ) → Fresh a ts → next' a ≡ next a

remove_node-hit :
    (key : ℕ → ℕ) (fuel tid : ℕ) (next : Next) (list : LinkedList) (x : ℕ)
    → list.head ≡ some x
    → (key x == tid) ≡ true
    → remove_node key fuel tid list next ≡ some ((dequeue list next).0, next, (dequeue list next).1)
unfolding remove_node
remove_node-hit key fuel tid next list x h e = ground arith

remove_node-miss :
    (key : ℕ → ℕ) (fuel tid : ℕ) (next : Next) (list : LinkedList) (x : ℕ)
    → list.head ≡ some x
    → (key x == tid) ≡ false
    → remove_node key fuel tid list next ≡ remove_loop key fuel tid x (next x) list next
unfolding remove_node
remove_node-miss key fuel tid next list x h e = ground arith

-- On a list of at most `fuel` nodes `remove_node` ends; it returns the first node whose key is
-- `tid`, NULL if there is none, the other nodes form a queue in their order, and the `next` of
-- every node that was not in the list is unchanged.
pub remove_node-Removed :
    (key : ℕ → ℕ) (fuel tid : ℕ) (next : Next) (list : LinkedList) (ts : List ℕ)
    → length ts ≤ fuel
    → IsQueue next list ts
    → (next' : Next) × (list' : LinkedList) × (remove_node key fuel tid list next
        ≡ some (find key tid ts, next', list'))
      × Removed next ts (drop_first key tid ts) next' list'
unfolding remove_node
remove_node-Removed key fuel tid next list [] f q =
    (next, list, ground arith, record { queue = q; same = λ a _. refl })
remove_node-Removed key fuel tid next list (x ∷ ts) f q = elim (Bool-cases (key x == tid)) [
  | inl hit ↦
      let (node, queue) = dequeue-cons next list x ts q in
      (
        next,
        (dequeue list next).1,
        rw (remove_node-hit key fuel tid next list x q.links.0 hit, node, hit),
        rw hit (record { queue = queue; same = λ a _. refl }),
      )
  | inr miss ↦
      let (next', list', e, w) =
        remove_loop-Walked key tid next list fuel x ts (omega arith) q.links.1 q.distinct q.tail in
      (
        next',
        list',
        rw (remove_node-miss key fuel tid next list x q.links.0 miss, e, miss),
        rw miss (record {
          queue = record {
            links = (w.head ∙ q.links.0, w.links);
            tail = w.tail;
            distinct = (
              Fresh-drop_first key tid x ts q.distinct.0,
              Distinct-drop_first key tid ts q.distinct.1,
            );
          };
          same = w.same;
        }),
      )
]
