-- ===== src/Tests/Trees.antt =====
-- A device tree and what kern/driver/dtb.c reads from it.
use os_lab.Base.{
  ℕ, zero, suc, ◌-◌, ◌/◌, ◌%◌, ◌^◌, ◌<◌, ◌≡◌, refl, List, [], ◌∷◌, ◌++◌, ok, codes, literal, arith,
}
use os_lab.Dtb.{
  Names, Dtb, dtb_init, extract_memory_info, extract_loop, load32, load64, fdt32_to_cpu,
  fdt64_to_cpu,
}
use os_lab.Dtb.Words.{IsBytes, big32, big64}
use os_lab.Dtb.Tree.{Token, begin_node, end_node, prop, nop}
use os_lab.Dtb.Extract.{HasTree, dtb_init-first_reg}
use os_lab.CString.{strlen, strlen_loop, strcmp, strncmp}

abbrev word : ℕ → List ℕ
word n = (n / 2 ^ 24 % 256) ∷ (n / 2 ^ 16 % 256) ∷ (n / 2 ^ 8 % 256) ∷ (n % 256) ∷ []

-- The header, a root with the node "memory" in it, the names of the properties and behind them the
-- literals of the source.
abbrev tree_image : List ℕ
tree_image =
    word 0xd00dfeed
    ++ (word 108
        ++ (word 40
            ++ (word 104
                ++ (word 40
                    ++ (word 17
                        ++ (word 16
                            ++ (word 0
                                ++ (word 4
                                    ++ (word 64
                                        ++ (word 1
                                            ++ (word 0
                                                ++ (word 1
                                                    ++ (codes "memory"
                                                        ++ (0
                                                            ∷ 0
                                                            ∷ (word 4
                                                            ++ (word 3
                                                            ++ (word 16
                                                            ++ (word 0
                                                            ++ (word 0
                                                            ++ (word 0x80000000
                                                            ++ (word 0
                                                            ++ (word 0x8000000
                                                            ++ (word 2
                                                            ++ (word 2
                                                            ++ (word 9
                                                            ++ (codes "reg"
                                                            ++ (0
                                                            ∷ (codes "memory"
                                                            ++ (0
                                                            ∷ 0
                                                            ∷ codes
                                                            "reg")))))))))))))))))))))))))))))

abbrev tree_memory : ℕ → ℕ
tree_memory p = literal tree_image (p - 0xffffffffc2200000)

abbrev tree_names : Names
tree_names = record { memory = 0xffffffffc220006c; reg = 0xffffffffc2200074 }

abbrev no_memory : Dtb
no_memory = record { memory_base = 0; memory_size = 0 }

abbrev tree_tokens : List Token
tree_tokens =
    begin_node []
    ∷ begin_node (codes "memory")
    ∷ nop
    ∷ prop (codes "reg") 16 0x80000000 0x8000000
    ∷ end_node
    ∷ end_node
    ∷ []

tree_test :
    dtb_init 20 tree_names 0x82200000 tree_memory no_memory
    ≡ ok (record { memory_base = 0x80000000; memory_size = 0x8000000 })
unfolding dtb_init extract_memory_info extract_loop load32 load64 fdt32_to_cpu fdt64_to_cpu strlen
    strlen_loop strcmp strncmp
tree_test = refl

abbrev AllBytes : List ℕ → Type 0
AllBytes [] = Unit {0}
AllBytes (b ∷ bs) = (b < 2 ^ 8) × AllBytes bs

literal-IsBytes : (bs : List ℕ) → AllBytes bs → IsBytes (literal bs)
literal-IsBytes [] h p = omega arith
literal-IsBytes (b ∷ bs) h zero = h.0
literal-IsBytes (b ∷ bs) h (suc p) = literal-IsBytes bs h.1 p

tree_memory-IsBytes : IsBytes tree_memory
tree_memory-IsBytes p = literal-IsBytes tree_image (omega arith) (p - 0xffffffffc2200000)

tree_memory-HasTree : HasTree tree_memory 0xffffffffc2200000 tree_tokens
unfolding big32 big64
tree_memory-HasTree = record { magic = refl; tokens = omega arith }

dtb_init-first_reg_example :
    dtb_init 20 tree_names 0x82200000 tree_memory no_memory
    ≡ ok (record { memory_base = 0x80000000; memory_size = 0x8000000 })
dtb_init-first_reg_example =
    dtb_init-first_reg 20 tree_names 0x82200000 tree_memory no_memory tree_tokens
      tree_memory-IsBytes (omega arith) (λ e. omega (arith, e)) tree_memory-HasTree (omega arith)
