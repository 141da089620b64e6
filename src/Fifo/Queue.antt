-- ===== src/Fifo/Queue.antt =====
-- A linked list stands for the list of its nodes: `enqueue` appends, `dequeue` takes the first.
use preemptive_multi_tasked.Prelude.{
  ℕ, ◌≡◌, ◌≢◌, refl, sym, List, [], ◌∷◌, ◌++◌, Option, none, some, arith, update,
}
use preemptive_multi_tasked.Fifo.{LinkedList, Next, enqueue, dequeue}

abbrev pub All {ℓ} : (ℕ → Type ℓ) → List ℕ → Type ℓ
All P [] = Unit
All P (x ∷ xs) = P x × All P xs

-- `t` is none of the nodes.
abbrev pub Fresh : ℕ → List ℕ → Type 0
Fresh t ts = All (λ a. a ≢ t) ts

abbrev pub Distinct : List ℕ → Type 0
Distinct [] = Unit {0}
Distinct (t ∷ ts) = Fresh t ts × Distinct ts

-- From `o` the `next` fields lead through `ts` to NULL.
abbrev pub Links : Next → Option ℕ → List ℕ → Type 0
Links next o [] = o ≡ none
Links next o (t ∷ ts) = (o ≡ some t) × Links next (next t) ts

abbrev pub last : List ℕ → Option ℕ
last [] = none
last (x ∷ []) = some x
last (x ∷ y ∷ r) = last (y ∷ r)

pub record IsQueue (next : Next) (list : LinkedList) (ts : List ℕ) : Type 0 where
  pub links : Links next list.head ts
  pub tail : list.tail ≡ last ts
  pub distinct : Distinct ts

-- Changes at other nodes are not seen.
pub Links-frame :
    (next next' : Next) (o : Option ℕ) (ts : List ℕ)
    → All (λ a. next' a ≡ next a) ts
    → Links next o ts
    → Links next' o ts
Links-frame next next' o [] same h = h
Links-frame next next' o (t ∷ ts) same h =
    ground (arith, Links-frame next next' (next t) ts same.1 h.1)

pub All-map {ℓ κ} :
    (P : ℕ → Type ℓ) (Q : ℕ → Type κ) (ts : List ℕ) → ((a : ℕ) → P a → Q a) → All P ts → All Q ts
All-map P Q [] f h = tt
All-map P Q (t ∷ ts) f h = (f t h.0, All-map P Q ts f h.1)

pub All-map₂ {ℓ κ μ} :
    (P : ℕ → Type ℓ) (Q : ℕ → Type κ) (R : ℕ → Type μ) (ts : List ℕ)
    → ((a : ℕ) → P a → Q a → R a)
    → All P ts
    → All Q ts
    → All R ts
All-map₂ P Q R [] f h k = tt
All-map₂ P Q R (t ∷ ts) f h k = (f t h.0 k.0, All-map₂ P Q R ts f h.1 k.1)

pub All-append {ℓ} : (P : ℕ → Type ℓ) (xs ys : List ℕ) → All P xs → All P ys → All P (xs ++ ys)
All-append P [] ys h k = k
All-append P (x ∷ xs) ys h k = (h.0, All-append P xs ys h.1 k)

pub Fresh-update :
    (next : Next) (t : ℕ) (v : Option ℕ) (ts : List ℕ)
    → Fresh t ts
    → All (λ a. update next t v a ≡ next a) ts
Fresh-update next t v ts h = All-map _ _ ts (λ a n. ground arith) h

pub Distinct-append : (ts : List ℕ) (t : ℕ) → Distinct ts → Fresh t ts → Distinct (ts ++ t ∷ [])
Distinct-append [] t d f = (tt, tt)
Distinct-append (x ∷ ts) t d f =
    (All-append _ ts (t ∷ []) d.0 ((λ e. f.0 (ground arith)), tt), Distinct-append ts t d.1 f.1)

pub last-ne : (ts : List ℕ) (x z : ℕ) → Fresh x ts → last ts ≡ some z → z ≢ x
last-ne [] x z f e = ground arith
last-ne (y ∷ []) x z f e = ground (arith, f.0)
last-ne (y ∷ w ∷ r) x z f e = last-ne (w ∷ r) x z f.1 e

last-append : (ts : List ℕ) (t : ℕ) → last (ts ++ t ∷ []) ≡ some t
last-append [] t = refl
last-append (x ∷ []) t = refl
last-append (x ∷ y ∷ r) t = last-append (y ∷ r) t

pub last-some : (x : ℕ) (ts : List ℕ) → (z : ℕ) × (last (x ∷ ts) ≡ some z)
last-some x [] = (x, refl)
last-some x (y ∷ r) = last-some y r

Links-append :
    (next : Next) (o : Option ℕ) (ts : List ℕ) (t z : ℕ)
    → Links next o ts
    → Distinct ts
    → Fresh t ts
    → last ts ≡ some z
    → next t ≡ none
    → Links (update next z (some t)) o (ts ++ t ∷ [])
Links-append next o [] t z h d f e n = ground arith
Links-append next o (x ∷ []) t z h d f e n = ground (arith, f.0)
Links-append next o (x ∷ y ∷ r) t z h d f e n =
    ground
      (arith, last-ne (y ∷ r) x z d.0 e, Links-append next (next x) (y ∷ r) t z h.1 d.1 f.1 e n)

enqueue-cons :
    (next : Next) (list : LinkedList) (x : ℕ) (ts : List ℕ) (t z : ℕ)
    → IsQueue next list (x ∷ ts)
    → last (x ∷ ts) ≡ some z
    → enqueue list t next ≡ (update next z (some t), record list { tail = some t })
unfolding enqueue
enqueue-cons next list x ts t z q e = ground arith

-- `enqueue` puts a node that is not in the list, and whose `next` is NULL, at the end of the list.
pub enqueue-IsQueue :
    (next : Next) (list : LinkedList) (ts : List ℕ) (t : ℕ)
    → IsQueue next list ts
    → Fresh t ts
    → next t ≡ none
    → let (next', list') = enqueue list t next in IsQueue next' list' (ts ++ t ∷ [])
unfolding enqueue
enqueue-IsQueue next list [] t q f n = ground arith
enqueue-IsQueue next list (x ∷ ts) t q f n =
    let (z, e) = last-some x ts in
    rw (enqueue-cons next list x ts t z q e) record {
      links = Links-append next list.head (x ∷ ts) t z q.links q.distinct f e n;
      tail = sym (last-append (x ∷ ts) t);
      distinct = Distinct-append (x ∷ ts) t q.distinct f;
    }

-- Only the `next` of the old last node changes.
pub enqueue-frame :
    (next : Next) (list : LinkedList) (ts : List ℕ) (t a : ℕ)
    → IsQueue next list ts
    → Fresh a ts
    → (enqueue list t next).0 a ≡ next a
unfolding enqueue
enqueue-frame next list [] t a q f = ground arith
enqueue-frame next list (x ∷ ts) t a q f =
    let (z, e) = last-some x ts in ground (arith, last-ne (x ∷ ts) a z f e)

pub dequeue-cons :
    (next : Next) (list : LinkedList) (t : ℕ) (ts : List ℕ)
    → IsQueue next list (t ∷ ts)
    → ((dequeue list next).0 ≡ some t) × IsQueue next (dequeue list next).1 ts
unfolding dequeue
dequeue-cons next list t [] q = ground arith
dequeue-cons next list t (x ∷ ts) q = ground arith
