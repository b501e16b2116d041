-- ===== src/Udp/Represents.antt =====
-- When mailboxes are what an open listener holds, and what keeps it so.
use cosnet.Prelude.{
  ℕ, ◌<◌, ◌≡◌, refl, ap, sym, ◌∙◌, false, Option, none, some, List, [], ◌∷◌, ◌==◌, if◌then◌else◌,
  map, All, arith, Bool-cases, ==→eq, Option-cases, inl, inr,
}
use cosnet.Prelude.Bytes.{Bytes}
use cosnet.Udp.{Options, Conn, Listener, find, delete, update, set_conn}
use cosnet.Udp.Mailboxes.{Mailboxes, Output, put}

pub find-delete :
    (key k : ℕ) (m : List (ℕ × ℕ)) → find k (delete key m) ≡ (if key == k then none else find k m)
unfolding find delete
find-delete key k [] = ground arith
find-delete key k ((j, i) ∷ m) = ground (arith, find-delete key k m)

-- The listener is open with the map `m`, whose connections are open and have their addresses.
pub record IsOpen (o : Options) (m : List (ℕ × ℕ)) (l : Listener) : Type 0 where
  pub with_options : l.options ≡ o
  pub accepting : l.conn_ch_closed ≡ false
  pub mapped : l.conns ≡ some m
  pub free : l.locked ≡ false
  pub addressed : (key i : ℕ) → find key m ≡ some i → Conn.addr (l.heap i) ≡ key
  pub opened : (key i : ℕ) → find key m ≡ some i → Conn.closed (l.heap i) ≡ false
  pub made : (key i : ℕ) → find key m ≡ some i → i < l.next
  pub queued : All (λ i. i < l.next) l.conn_ch

abbrev pub mail_of : (ℕ → Conn) → Option ℕ → Option (List Bytes)
mail_of heap none = none
mail_of heap (some i) = some (Conn.msg_chan (heap i))

abbrev pub addr_of : (ℕ → Conn) → ℕ → ℕ
addr_of heap i = Conn.addr (heap i)

-- The mailboxes are what the listener holds.
pub record Represents (m : List (ℕ × ℕ)) (l : Listener) (s : Mailboxes) : Type 0 where
  pub waiting : map (addr_of l.heap) l.conn_ch ≡ s.waiting
  pub inbox : (key : ℕ) → mail_of l.heap (find key m) ≡ s.inbox key

-- Two addresses have two connections.
pub find-injective :
    (o : Options) (m : List (ℕ × ℕ)) (l : Listener) (key k i : ℕ)
    → IsOpen o m l
    → find key m ≡ some i
    → find k m ≡ some i
    → key ≡ k
find-injective o m l key k i h e f = sym (h.addressed key i e) ∙ h.addressed k i f

pub map-addr :
    (heap heap' : ℕ → Conn) (n : ℕ) (xs : List ℕ)
    → ((i : ℕ) → i < n → Conn.addr (heap' i) ≡ Conn.addr (heap i))
    → All (λ i. i < n) xs
    → map (addr_of heap') xs ≡ map (addr_of heap) xs
map-addr heap heap' n [] same all = refl
map-addr heap heap' n (x ∷ xs) same (small, all) =
    λ t. same x small t ∷ map-addr heap heap' n xs same all t

-- A field that a change of one connection leaves is left everywhere.
pub update_field {ℓ} :
    {A : Type ℓ} (f : Conn → A) (heap : ℕ → Conn) (i : ℕ) (c : Conn) (j : ℕ)
    → f c ≡ f (heap i)
    → f (update heap i c j) ≡ f (heap j)
update_field f heap i c j same = elim (Bool-cases (i == j)) [
  | inl e ↦ rw e (same ∙ ap (λ n. f (heap n)) (==→eq i j e))
  | inr e ↦ rw e refl
]

-- A change of the queue of the connection `i` of `key`.
pub mail-update :
    (o : Options) (m : List (ℕ × ℕ)) (l : Listener) (key i : ℕ) (c : Conn) (k : ℕ)
    → IsOpen o m l
    → find key m ≡ some i
    → mail_of (update l.heap i c) (find k m)
      ≡ (if key == k then some c.msg_chan else mail_of l.heap (find k m))
mail-update o m l key i c k h e = elim (Option-cases (find k m)) [
  | inl gone ↦ ground (arith, gone, e)
  | inr (j, there) ↦ ground (arith, there, e, h.addressed key i e, h.addressed k j there)
]

pub set-IsOpen :
    (o : Options) (m : List (ℕ × ℕ)) (l : Listener) (i : ℕ) (c : Conn)
    → c.addr ≡ Conn.addr (l.heap i)
    → c.closed ≡ Conn.closed (l.heap i)
    → IsOpen o m l
    → IsOpen o m (set_conn i c l)
set-IsOpen o m l i c addr closed h = record {
  with_options = h.with_options;
  accepting = h.accepting;
  mapped = h.mapped;
  free = h.free;
  addressed = λ key j e. update_field Conn.addr l.heap i c j addr ∙ h.addressed key j e;
  opened = λ key j e. update_field Conn.closed l.heap i c j closed ∙ h.opened key j e;
  made = h.made;
  queued = h.queued;
}

-- The mailboxes after a change of the queue of `key`.
pub set-Represents :
    (o : Options) (m : List (ℕ × ℕ)) (l : Listener) (s : Mailboxes) (key i : ℕ) (c : Conn)
    (q : List Bytes)
    → IsOpen o m l
    → find key m ≡ some i
    → c.addr ≡ Conn.addr (l.heap i)
    → c.msg_chan ≡ q
    → Represents m l s
    → Represents m (set_conn i c l) (record s { inbox = put key (some q) s.inbox })
set-Represents o m l s key i c q h e addr queue r = record {
  waiting =
      map-addr l.heap (update l.heap i c) l.next l.conn_ch
        (λ j small. update_field Conn.addr l.heap i c j addr) h.queued
      ∙ r.waiting;
  inbox = λ k.
      mail-update o m l key i c k h e
      ∙ ap (λ x. if key == k then some x else mail_of l.heap (find k m)) queue
      ∙ ap (λ x. if key == k then some q else x) (r.inbox k);
}

abbrev pub free_of : Listener → Listener
free_of l = record l { locked = false }

pub free-IsOpen :
    (o : Options) (m : List (ℕ × ℕ)) (l : Listener) → IsOpen o m l → IsOpen o m (free_of l)
free-IsOpen o m l h = record {
  with_options = h.with_options;
  accepting = h.accepting;
  mapped = h.mapped;
  free = refl;
  addressed = h.addressed;
  opened = h.opened;
  made = h.made;
  queued = h.queued;
}

pub free-Represents :
    (m : List (ℕ × ℕ)) (l : Listener) (s : Mailboxes)
    → Represents m l s
    → Represents m (free_of l) s
free-Represents m l s r = record { waiting = r.waiting; inbox = r.inbox }

-- What an event comes to: the output is the promised one, and the mailboxes are those promised.
abbrev pub Kept : Options → Listener × Output → Mailboxes × Output → Type 0
Kept o (l, out) (s, out') = (m : List (ℕ × ℕ)) × IsOpen o m l × Represents m l s × (out ≡ out')

-- Mailboxes that are the same at every address are represented together.
pub Represents-eq :
    (m : List (ℕ × ℕ)) (l : Listener) (s s' : Mailboxes)
    → s.waiting ≡ s'.waiting
    → ((key : ℕ) → s.inbox key ≡ s'.inbox key)
    → Represents m l s
    → Represents m l s'
Represents-eq m l s s' waiting inbox r = record {
  waiting = r.waiting ∙ waiting;
  inbox = λ key. r.inbox key ∙ inbox key;
}

pub put_same :
    (key : ℕ) (v : Option (List Bytes)) (inbox : ℕ → Option (List Bytes)) (k : ℕ)
    → inbox key ≡ v
    → inbox k ≡ put key v inbox k
put_same key v inbox k e = elim (Bool-cases (key == k)) [
  | inl here ↦ rw here (sym (ap inbox (==→eq key k here)) ∙ e)
  | inr away ↦ rw away refl
]
