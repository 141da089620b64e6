-- ===== src/Kernel/Stack.antt =====
-- The kernel stack that `k_tsk_create_new` prepares, read from the stack pointer up.
use preemptive_multi_tasked.Prelude.{
  ℕ, zero, suc, ◌+◌, ◌*◌, ◌%◌, ◌^◌, ◌≤◌, ◌<◌, ◌≡◌, ◌≢◌, refl, ap, ◌∙◌, true, some, List, [], ◌∷◌,
  ◌++◌, arith, ◌==◌, update, sub32, length,
}
use preemptive_multi_tasked.Mem.{rtx_ok, k_mem_alloc, Mem}
use preemptive_multi_tasked.Task.{ready, Tcb}
use preemptive_multi_tasked.Kernel.{
  Image, Kernel, TaskInfo, push_all, zeros, align_sp, k_alloc_k_stack, k_alloc_p_stack,
  user_context, kernel_context, link, k_tsk_create_new, init_cpsr_user, init_cpsr_svc, set_tcb,
}

-- `n` words from `sp` up.
abbrev pub read : (n sp : ℕ) → (ℕ → ℕ) → List ℕ
read zero sp stack = []
read (suc n) sp stack = stack sp ∷ read n (sp + 4) stack

-- The words in the order in which they are read once they have been pushed.
abbrev pub pushed : List ℕ → List ℕ → List ℕ
pushed [] below = below
pushed (w ∷ ws) below = pushed ws (w ∷ below)

read-update :
    (n sp a v : ℕ) (stack : ℕ → ℕ) → a < sp → read n sp (update stack a v) ≡ read n sp stack
read-update zero sp a v stack h = refl
read-update (suc n) sp a v stack h = ground (arith, read-update n (sp + 4) a v stack (omega arith))

-- What is pushed is read back, the last word first, then what was there before.
pub push_all-read :
    (ws : List ℕ) (n sp : ℕ) (stack : ℕ → ℕ)
    → 4 * length ws ≤ sp
    → sp < 2 ^ 32
    → let (sp', stack') = push_all ws sp stack in
      (sp' + 4 * length ws ≡ sp) × (read (length ws + n) sp' stack' ≡ pushed ws (read n sp stack))
push_all-read [] n sp stack h k = ground arith
push_all-read (w ∷ ws) n sp stack h k =
    let at = sub32 sp 4 in
    let below : at + 4 ≡ sp = omega arith in
    let stack1 = update stack at w in
    let (moved, rest) = push_all-read ws (suc n) at stack1 (omega (arith, below)) (omega arith) in
    let top : read (suc n) at stack1 ≡ w ∷ read n sp stack =
      ground (arith, below, read-update n sp at w stack (omega (arith, below))) in
    (
      omega (arith, moved, below),
      ap (λ m. read m (push_all ws at stack1).0 (push_all ws at stack1).1) (omega arith)
          ∙ rest
          ∙ ap (pushed ws) top,
    )

-- The words of the two contexts, in the order in which they are pushed.
abbrev pub user_words : (image : Image) (info : TaskInfo) (u_stack : ℕ) → List ℕ
user_words image info u_stack =
    init_cpsr_user ∷ info.ptask ∷ u_stack ∷ zeros 13
    ++ image.svc_restore ∷ zeros 13
    ++ init_cpsr_svc ∷ []

abbrev pub kernel_words : TaskInfo → List ℕ
kernel_words info = info.ptask ∷ zeros 13 ++ init_cpsr_svc ∷ []

-- What `k_tsk_create_new` leaves for the task `tid`: the stack pointer, the words above it up to
-- the end of the stack, and the TCB.
pub record Prepared (image : Image) (info : TaskInfo) (tid : ℕ) (words : List ℕ) (k' : Kernel)
    : Type 0 where
  pub ksp : (k'.sched.tcbs tid).ksp + 4 * length words ≡ image.g_k_stacks + (tid + 1) * 512
  pub stack : read (length words) (k'.sched.tcbs tid).ksp k'.stack ≡ pushed words []
  pub tid_eq : (k'.sched.tcbs tid).tid ≡ tid
  pub prio : (k'.sched.tcbs tid).prio ≡ info.prio
  pub priv : (k'.sched.tcbs tid).priv ≡ info.priv

update_same :
    {A : Type 0}
    → (view : Tcb → A) (tcbs : ℕ → Tcb) (t : ℕ) (v : Tcb) → view (update tcbs t v t) ≡ view v
update_same view tcbs t v = ground arith

update_other :
    {A : Type 0}
    → (view : Tcb → A) (tcbs : ℕ → Tcb) (t a : ℕ) (v : Tcb) → t ≢ a
    → view (update tcbs t v a) ≡ view (tcbs a)
update_other view tcbs t a v n = ground arith

k_alloc_p_stack-given :
    (tid p : ℕ) (m : Mem) (k : Kernel)
    → k_mem_alloc (k.sched.tcbs k.sched.current).tid (k.sched.tcbs tid).u_stack_size k.mem
      ≡ some (p, m)
    → k_alloc_p_stack tid k
      ≡ some
          (p, set_tcb tid (record (k.sched.tcbs tid) { u_stack_start = p }) (record k { mem = m }))
unfolding k_alloc_p_stack
k_alloc_p_stack-given tid p m k e = rw (e, k_alloc_p_stack) refl

module _ (image : Image) (info : TaskInfo) (tid : ℕ) (k : Kernel)
    (aligned : image.g_k_stacks % 8 ≡ 0)
    (within : image.g_k_stacks + (tid + 1) * 512 < 2 ^ 32) where
  top_eq : align_sp (k_alloc_k_stack image tid) ≡ image.g_k_stacks + (tid + 1) * 512
  top_eq = ground arith

  abbrev top : ℕ
  top = image.g_k_stacks + (tid + 1) * 512

  -- The kernel once the TCB has its id and state.
  abbrev named : Kernel
  named = set_tcb tid (record (k.sched.tcbs tid) { tid = tid; state = ready }) k

  words_below :
      (ws : List ℕ)
      → length ws ≤ 31
      → let (sp', stack') = push_all ws top k.stack in
        (sp' + 4 * length ws ≡ top) × (read (length ws) sp' stack' ≡ pushed ws [])
  words_below ws few =
      let (moved, words) = push_all-read ws 0 top k.stack (omega (arith, few)) within in
      (
        moved,
        ap (λ n. read n (push_all ws top k.stack).0 (push_all ws top k.stack).1) (omega arith)
            ∙ words,
      )

  prepared :
      (ws : List ℕ) (k' : Kernel)
      → length ws ≤ 31
      → ((k'.sched.tcbs tid).ksp ≡ (push_all ws top k.stack).0)
        × (k'.stack ≡ (push_all ws top k.stack).1)
        × ((k'.sched.tcbs tid).tid ≡ tid)
        × ((k'.sched.tcbs tid).prio ≡ info.prio)
        × ((k'.sched.tcbs tid).priv ≡ info.priv)
      → Prepared image info tid ws k'
  prepared ws k' few (ksp, stack, same, prio, priv) =
      let (moved, words) = words_below ws few in
      record {
        ksp = rw ksp moved;
        stack = rw (ksp, stack) words;
        tid_eq = same;
        prio = prio;
        priv = priv;
      }

  kernel_context-tcb :
      (sp : ℕ) (k1 : Kernel)
      → let k' = kernel_context image info tid sp k1 in
        let (sp', stack') =
          push_all (link image info ∷ zeros 13 ++ init_cpsr_svc ∷ []) sp k1.stack in
        ((k'.sched.tcbs tid).ksp ≡ sp')
        × (k'.stack ≡ stack')
        × ((k'.sched.tcbs tid).tid ≡ (k1.sched.tcbs tid).tid)
        × ((k'.sched.tcbs tid).prio ≡ info.prio)
        × ((k'.sched.tcbs tid).priv ≡ info.priv)
  unfolding kernel_context
  kernel_context-tcb sp k1 = (
    update_same (λ t. t.ksp) k1.sched.tcbs tid _,
    refl,
    update_same (λ t. t.tid) k1.sched.tcbs tid _,
    update_same (λ t. t.prio) k1.sched.tcbs tid _,
    update_same (λ t. t.priv) k1.sched.tcbs tid _,
  )

  link-kernel : info.priv ≢ 0 → link image info ≡ info.ptask
  unfolding link
  link-kernel n = ground arith

  link-user : info.priv ≡ 0 → link image info ≡ image.svc_restore
  unfolding link
  link-user e = ground arith

  create_kernel :
      info.priv ≢ 0
      → k_tsk_create_new image (some info) (some tid) tid k
        ≡ some (rtx_ok, kernel_context image info tid top named)
  unfolding k_tsk_create_new
  create_kernel n = rw top_eq (ground arith)

  -- `k_tsk_create_new` for a privileged task, whose kernel stack is aligned and inside the address
  -- space, succeeds; from the saved stack pointer to the end of the stack stand the CPSR, thirteen
  -- zeros and the entry point of the task, and the TCB has its id, priority and privilege.
  pub k_tsk_create_new-privileged :
      info.priv ≢ 0
      → (k' : Kernel) × (k_tsk_create_new image (some info) (some tid) tid k ≡ some (rtx_ok, k'))
        × Prepared image info tid (kernel_words info) k'
  k_tsk_create_new-privileged n =
      let k' = kernel_context image info tid top named in
      let (ksp, stack, same, prio, priv) = kernel_context-tcb top named in
      let to : link image info ≡ info.ptask = link-kernel n in
      (
        k',
        create_kernel n,
        prepared (kernel_words info) k' (omega arith)
            (ksp, rw to at stack, same ∙ update_same (λ t. t.tid) k.sched.tcbs tid _, prio, priv),
      )

  module _ (user : info.priv ≡ 0) (p : ℕ) (m : Mem) (other : tid ≢ k.sched.current)
      (given : k_mem_alloc (k.sched.tcbs k.sched.current).tid info.u_stack_size k.mem
        ≡ some (p, m)) where
    -- The kernel once the user stack has been allocated.
    abbrev pub user_sp : ℕ × (ℕ → ℕ)
    user_sp = push_all (init_cpsr_user ∷ info.ptask ∷ p ∷ zeros 13) top k.stack

    abbrev sized : Kernel
    sized =
        set_tcb tid (record (named.sched.tcbs tid) { u_stack_size = info.u_stack_size })
          (record named { stack = (push_all (init_cpsr_user ∷ info.ptask ∷ []) top k.stack).1 })

    abbrev pub backed : Kernel
    backed =
        record (set_tcb tid (record (sized.sched.tcbs tid) { u_stack_start = p })
          (record sized { mem = m })) { stack = user_sp.1 }

    sized-given :
        k_mem_alloc
          (sized.sched.tcbs sized.sched.current).tid
          (sized.sched.tcbs tid).u_stack_size
          sized.mem
        ≡ some (p, m)
    sized-given =
        let owner : (sized.sched.tcbs sized.sched.current).tid
            ≡ (k.sched.tcbs k.sched.current).tid =
          update_other (λ t. t.tid) named.sched.tcbs tid k.sched.current _ other
          ∙ update_other (λ t. t.tid) k.sched.tcbs tid k.sched.current _ other in
        ap (λ a. k_mem_alloc a (sized.sched.tcbs tid).u_stack_size k.mem) owner
        ∙ ap (λ n. k_mem_alloc (k.sched.tcbs k.sched.current).tid n k.mem)
            (update_same (λ t. t.u_stack_size) named.sched.tcbs tid _)
        ∙ given

    user_context-backed : user_context info tid tid top named ≡ some (user_sp.0, backed)
    unfolding user_context
    user_context-backed = rw (k_alloc_p_stack-given tid p m sized sized-given, user_context) refl

    pub create_user :
        k_tsk_create_new image (some info) (some tid) tid k
        ≡ some (rtx_ok, kernel_context image info tid user_sp.0 backed)
    unfolding k_tsk_create_new
    create_user =
        let flag : (info.priv == 0) ≡ true = ground arith in
        rw (top_eq, flag, user_context-backed) refl

    -- `k_tsk_create_new` for a user task that is not the current one, whose kernel stack is aligned
    -- and inside the address space and for which `k_mem_alloc` returns the user stack `p`,
    -- succeeds; from the saved stack pointer to the end of the stack stand the CPSR, thirteen zeros
    -- and the return address of the kernel context, then thirteen zeros, `p`, the entry point and
    -- the CPSR of the user context, and the TCB has its id, priority and privilege.
    pub k_tsk_create_new-unprivileged :
        (k' : Kernel) × (k_tsk_create_new image (some info) (some tid) tid k ≡ some (rtx_ok, k'))
        × Prepared image info tid (user_words image info p) k'
    k_tsk_create_new-unprivileged =
        let k' = kernel_context image info tid user_sp.0 backed in
        let (ksp, stack, same, prio, priv) = kernel_context-tcb user_sp.0 backed in
        let to = link-user user in
        (
          k',
          create_user,
          prepared (user_words image info p) k' (omega arith) (
            ksp,
            rw to at stack,
            same
                ∙ update_same (λ t. t.tid) sized.sched.tcbs tid _
                ∙ update_same (λ t. t.tid) named.sched.tcbs tid _
                ∙ update_same (λ t. t.tid) k.sched.tcbs tid _,
            prio,
            priv,
          ),
        )
