-- ===== src/Sema/Decls.antt =====
-- The declaration kinds of include/blocktype/AST/NodeKinds.def, and the class tests of
-- include/blocktype/AST/Decl.h that the name tables use.
use Prim.Native.String.{String}
use block_type.Prelude.{ℕ, Bool, ◌&&◌, ◌||◌, leb, ltb, ◌==◌}

-- The kinds, in the order of the file. Expressions and statements come before them all.
pub data NodeKind : Type 0 where
  decl named_decl value_decl var_decl parm_var_decl function_decl field_decl enum_constant_decl
        label_decl type_decl typedef_decl tag_decl enum_decl record_decl template_type_parm_decl
        cxx_record_decl cxx_method_decl cxx_constructor_decl cxx_destructor_decl cxx_conversion_decl
        access_spec_decl namespace_decl translation_unit_decl using_decl using_directive_decl
        namespace_alias_decl using_enum_decl template_decl function_template_decl
        class_template_decl var_template_decl type_alias_template_decl template_template_parm_decl
        non_type_template_parm_decl class_template_specialization_decl
        class_template_partial_specialization_decl var_template_specialization_decl
        var_template_partial_specialization_decl module_decl import_decl export_decl
        static_assert_decl linkage_spec_decl type_alias_decl friend_decl concept_decl asm_decl
        cxx_deduction_guide_decl attribute_decl attribute_list_decl contract_attr binding_decl :
      NodeKind

-- The position of a kind among the declarations: the order that `<` and `<=` compare.
unfoldable pub position : NodeKind → ℕ
position decl = 0
position named_decl = 1
position value_decl = 2
position var_decl = 3
position parm_var_decl = 4
position function_decl = 5
position field_decl = 6
position enum_constant_decl = 7
position label_decl = 8
position type_decl = 9
position typedef_decl = 10
position tag_decl = 11
position enum_decl = 12
position record_decl = 13
position template_type_parm_decl = 14
position cxx_record_decl = 15
position cxx_method_decl = 16
position cxx_constructor_decl = 17
position cxx_destructor_decl = 18
position cxx_conversion_decl = 19
position access_spec_decl = 20
position namespace_decl = 21
position translation_unit_decl = 22
position using_decl = 23
position using_directive_decl = 24
position namespace_alias_decl = 25
position using_enum_decl = 26
position template_decl = 27
position function_template_decl = 28
position class_template_decl = 29
position var_template_decl = 30
position type_alias_template_decl = 31
position template_template_parm_decl = 32
position non_type_template_parm_decl = 33
position class_template_specialization_decl = 34
position class_template_partial_specialization_decl = 35
position var_template_specialization_decl = 36
position var_template_partial_specialization_decl = 37
position module_decl = 38
position import_decl = 39
position export_decl = 40
position static_assert_decl = 41
position linkage_spec_decl = 42
position type_alias_decl = 43
position friend_decl = 44
position concept_decl = 45
position asm_decl = 46
position cxx_deduction_guide_decl = 47
position attribute_decl = 48
position attribute_list_decl = 49
position contract_attr = 50
position binding_decl = 51

-- The `classof` functions, as they are written: ranges of positions, or single kinds.
unfoldable pub isa_tag : NodeKind → Bool
unfolding position
isa_tag k = leb (position tag_decl) (position k) && ltb (position k) (position namespace_decl)

unfoldable pub isa_typedef_name : NodeKind → Bool
unfolding position
isa_typedef_name k =
    leb (position typedef_decl) (position k) && leb (position k) (position type_alias_decl)

unfoldable pub isa_namespace : NodeKind → Bool
unfolding position
isa_namespace k = position k == position namespace_decl

unfoldable pub isa_template : NodeKind → Bool
unfolding position
isa_template k =
    position k == position template_decl
    || position k == position template_template_parm_decl
    || position k == position function_template_decl
    || position k == position class_template_decl
    || position k == position var_template_decl
    || position k == position type_alias_template_decl

unfoldable pub isa_concept : NodeKind → Bool
unfolding position
isa_concept k = position k == position concept_decl

unfoldable pub isa_function : NodeKind → Bool
unfolding position
isa_function k = position k == position function_decl

unfoldable pub isa_cxx_method : NodeKind → Bool
unfolding position
isa_cxx_method k =
    leb (position cxx_method_decl) (position k) && leb (position k) (position cxx_conversion_decl)

-- What the name tables read of a declaration. A pointer is the declaration; `complete` is
-- `isCompleteDefinition` of a `TagDecl`.
pub record NamedDecl : Type 0 where
  pub name : String
  pub location : ℕ
  pub kind : NodeKind
  pub complete : Bool
