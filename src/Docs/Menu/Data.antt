-- ===== src/Docs/Menu/Data.antt =====
-- docs/menudata.js: the entries of the main menu, the lists of children by themselves.
use re_boot.Base.{codes}
use re_boot.Docs.Menu.{Menu, leaf, branch, Items, done, entry}

abbrev pub menu_classes_class_members_all : Items
menu_classes_class_members_all =
    (entry (codes "a") (codes "functions.html#index_a") leaf (
      entry (codes "b") (codes "functions.html#index_b") leaf (
        entry (codes "c") (codes "functions.html#index_c") leaf (
          entry (codes "d") (codes "functions.html#index_d") leaf (
            entry (codes "e") (codes "functions.html#index_e") leaf (
              entry (codes "f") (codes "functions.html#index_f") leaf (
                entry (codes "h") (codes "functions.html#index_h") leaf (
                  entry (codes "i") (codes "functions.html#index_i") leaf (
                    entry (codes "l") (codes "functions.html#index_l") leaf (
                      entry (codes "m") (codes "functions.html#index_m") leaf (
                        entry (codes "n") (codes "functions.html#index_n") leaf (
                          entry (codes "o") (codes "functions.html#index_o") leaf (
                            entry (codes "p") (codes "functions.html#index_p") leaf (
                              entry (codes "q") (codes "functions.html#index_q") leaf (
                                entry (codes "r") (codes "functions.html#index_r") leaf (
                                  entry (codes "s") (codes "functions.html#index_s") leaf (
                                    entry (codes "t") (codes "functions.html#index_t") leaf (
                                      entry (codes "u") (codes "functions.html#index_u") leaf (
                                        entry (codes "v") (codes "functions.html#index_v") leaf (
                                          entry (codes "w") (codes "functions.html#index_w") leaf
                                            done))))))))))))))))))))

abbrev pub menu_classes_class_members_variables : Items
menu_classes_class_members_variables =
    (entry (codes "a") (codes "functions_vars.html#index_a") leaf (
      entry (codes "b") (codes "functions_vars.html#index_b") leaf (
        entry (codes "c") (codes "functions_vars.html#index_c") leaf (
          entry (codes "d") (codes "functions_vars.html#index_d") leaf (
            entry (codes "e") (codes "functions_vars.html#index_e") leaf (
              entry (codes "f") (codes "functions_vars.html#index_f") leaf (
                entry (codes "h") (codes "functions_vars.html#index_h") leaf (
                  entry (codes "i") (codes "functions_vars.html#index_i") leaf (
                    entry (codes "l") (codes "functions_vars.html#index_l") leaf (
                      entry (codes "m") (codes "functions_vars.html#index_m") leaf (
                        entry (codes "n") (codes "functions_vars.html#index_n") leaf (
                          entry (codes "o") (codes "functions_vars.html#index_o") leaf (
                            entry (codes "p") (codes "functions_vars.html#index_p") leaf (
                              entry (codes "q") (codes "functions_vars.html#index_q") leaf (
                                entry (codes "r") (codes "functions_vars.html#index_r") leaf (
                                  entry (codes "s") (codes "functions_vars.html#index_s") leaf (
                                    entry (codes "t") (codes "functions_vars.html#index_t") leaf (
                                      entry (codes "u") (codes "functions_vars.html#index_u") leaf (
                                        entry (codes "v") (codes "functions_vars.html#index_v") leaf
                                          (entry (codes "w") (codes "functions_vars.html#index_w")
                                            leaf done))))))))))))))))))))

abbrev pub menu_classes_class_members : Items
menu_classes_class_members =
    (entry (codes "All") (codes "functions.html") (branch menu_classes_class_members_all) (
      entry (codes "Variables") (codes "functions_vars.html")
        (branch menu_classes_class_members_variables) done))

abbrev pub menu_classes : Items
menu_classes =
    (entry (codes "Class List") (codes "annotated.html") leaf (
      entry (codes "Class Index") (codes "classes.html") leaf (
        entry (codes "Class Members") (codes "functions.html") (branch menu_classes_class_members)
          done)))

abbrev pub menu_files_file_members_all : Items
menu_files_file_members_all =
    (entry (codes "_") (codes "globals.html#index__5F") leaf (
      entry (codes "a") (codes "globals_a.html#index_a") leaf (
        entry (codes "b") (codes "globals_b.html#index_b") leaf (
          entry (codes "c") (codes "globals_c.html#index_c") leaf (
            entry (codes "d") (codes "globals_d.html#index_d") leaf (
              entry (codes "e") (codes "globals_e.html#index_e") leaf (
                entry (codes "f") (codes "globals_f.html#index_f") leaf (
                  entry (codes "g") (codes "globals_g.html#index_g") leaf (
                    entry (codes "h") (codes "globals_h.html#index_h") leaf (
                      entry (codes "i") (codes "globals_i.html#index_i") leaf (
                        entry (codes "m") (codes "globals_m.html#index_m") leaf (
                          entry (codes "p") (codes "globals_p.html#index_p") leaf (
                            entry (codes "q") (codes "globals_q.html#index_q") leaf (
                              entry (codes "r") (codes "globals_r.html#index_r") leaf (
                                entry (codes "s") (codes "globals_s.html#index_s") leaf (
                                  entry (codes "t") (codes "globals_t.html#index_t") leaf (
                                    entry (codes "u") (codes "globals_u.html#index_u") leaf (
                                      entry (codes "v") (codes "globals_v.html#index_v") leaf
                                        done))))))))))))))))))

abbrev pub menu_files_file_members_functions : Items
menu_files_file_members_functions =
    (entry (codes "a") (codes "globals_func.html#index_a") leaf (
      entry (codes "c") (codes "globals_func.html#index_c") leaf (
        entry (codes "d") (codes "globals_func.html#index_d") leaf (
          entry (codes "f") (codes "globals_func.html#index_f") leaf (
            entry (codes "g") (codes "globals_func.html#index_g") leaf (
              entry (codes "h") (codes "globals_func.html#index_h") leaf (
                entry (codes "i") (codes "globals_func.html#index_i") leaf (
                  entry (codes "m") (codes "globals_func.html#index_m") leaf (
                    entry (codes "p") (codes "globals_func.html#index_p") leaf (
                      entry (codes "q") (codes "globals_func.html#index_q") leaf (
                        entry (codes "r") (codes "globals_func.html#index_r") leaf (
                          entry (codes "s") (codes "globals_func.html#index_s") leaf (
                            entry (codes "t") (codes "globals_func.html#index_t") leaf
                              done)))))))))))))

abbrev pub menu_files_file_members_variables : Items
menu_files_file_members_variables =
    (entry (codes "a") (codes "globals_vars.html#index_a") leaf (
      entry (codes "b") (codes "globals_vars.html#index_b") leaf (
        entry (codes "c") (codes "globals_vars.html#index_c") leaf (
          entry (codes "d") (codes "globals_vars.html#index_d") leaf (
            entry (codes "f") (codes "globals_vars.html#index_f") leaf (
              entry (codes "h") (codes "globals_vars.html#index_h") leaf (
                entry (codes "m") (codes "globals_vars.html#index_m") leaf (
                  entry (codes "p") (codes "globals_vars.html#index_p") leaf (
                    entry (codes "r") (codes "globals_vars.html#index_r") leaf (
                      entry (codes "s") (codes "globals_vars.html#index_s") leaf
                        (entry (codes "t") (codes "globals_vars.html#index_t") leaf done)))))))))))

abbrev pub menu_files_file_members_macros : Items
menu_files_file_members_macros =
    (entry (codes "_") (codes "globals_defs.html#index__5F") leaf (
      entry (codes "c") (codes "globals_defs.html#index_c") leaf (
        entry (codes "f") (codes "globals_defs.html#index_f") leaf (
          entry (codes "m") (codes "globals_defs.html#index_m") leaf (
            entry (codes "p") (codes "globals_defs.html#index_p") leaf (
              entry (codes "q") (codes "globals_defs.html#index_q") leaf (
                entry (codes "r") (codes "globals_defs.html#index_r") leaf (
                  entry (codes "s") (codes "globals_defs.html#index_s") leaf (
                    entry (codes "t") (codes "globals_defs.html#index_t") leaf (
                      entry (codes "u") (codes "globals_defs.html#index_u") leaf
                        (entry (codes "v") (codes "globals_defs.html#index_v") leaf done)))))))))))

abbrev pub menu_files_file_members : Items
menu_files_file_members =
    (entry (codes "All") (codes "globals.html") (branch menu_files_file_members_all) (
      entry (codes "Functions") (codes "globals_func.html")
        (branch menu_files_file_members_functions)
        (entry (codes "Variables") (codes "globals_vars.html")
          (branch menu_files_file_members_variables)
          (entry (codes "Typedefs") (codes "globals_type.html") leaf (
            entry (codes "Enumerations") (codes "globals_enum.html") leaf (
              entry (codes "Enumerator") (codes "globals_eval.html") leaf (
                entry (codes "Macros") (codes "globals_defs.html")
                  (branch menu_files_file_members_macros) done)))))))

abbrev pub menu_files : Items
menu_files =
    (entry (codes "File List") (codes "files.html") leaf
      (entry (codes "File Members") (codes "globals.html") (branch menu_files_file_members) done))

abbrev pub menu : Items
menu =
    (entry (codes "Main Page") (codes "index.html") leaf (
      entry (codes "Topics") (codes "topics.html") leaf (
        entry (codes "Classes") (codes "annotated.html") (branch menu_classes)
          (entry (codes "Files") (codes "files.html") (branch menu_files) done))))

-- `menudata`
abbrev pub menudata : Menu
menudata = branch menu
