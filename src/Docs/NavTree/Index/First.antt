-- ===== src/Docs/NavTree/Index/First.antt =====
-- docs/navtreeindex0.js, the table from addresses to paths, in two parts.
use re_boot.Base.{[], ◌∷◌, ◌++◌, codes}
use re_boot.Docs.NavTree.{Table}

abbrev pub upper_part : Table
upper_part =
    (codes "annotated.html", 2 ∷ 0 ∷ [])
    ∷ (codes "app__config_8h.html", 3 ∷ 0 ∷ 1 ∷ 0 ∷ [])
    ∷ (codes "app__config_8h.html#a01c3892c16d6330e486637967ab0289b", 3 ∷ 0 ∷ 1 ∷ 0 ∷ 4 ∷ [])
    ∷ (codes "app__config_8h.html#a02c0455c099be9c4b988feeb67f77ec1", 3 ∷ 0 ∷ 1 ∷ 0 ∷ 10 ∷ [])
    ∷ (codes "app__config_8h.html#a1db55153877cfdc729091d3aecdb3bd2", 3 ∷ 0 ∷ 1 ∷ 0 ∷ 8 ∷ [])
    ∷ (codes "app__config_8h.html#a383cc726612c3f31cc235472be55516b", 3 ∷ 0 ∷ 1 ∷ 0 ∷ 7 ∷ [])
    ∷ (codes "app__config_8h.html#a427a40e102258055c72607bf7b604549", 3 ∷ 0 ∷ 1 ∷ 0 ∷ 0 ∷ [])
    ∷ (codes "app__config_8h.html#a86553651685c25659b8f664a8d77c6bf", 3 ∷ 0 ∷ 1 ∷ 0 ∷ 12 ∷ [])
    ∷ (codes "app__config_8h.html#a9f12590b1545ba583963c2544d8a3bca", 3 ∷ 0 ∷ 1 ∷ 0 ∷ 5 ∷ [])
    ∷ (codes "app__config_8h.html#aae3f0b4211ba45d265973d40ccbb5fd1", 3 ∷ 0 ∷ 1 ∷ 0 ∷ 6 ∷ [])
    ∷ (codes "app__config_8h.html#ac8bb4e3100b3e07488b12cf36eb5231e", 3 ∷ 0 ∷ 1 ∷ 0 ∷ 9 ∷ [])
    ∷ (codes "app__config_8h.html#ad183c904491e39a791841a044833c818", 3 ∷ 0 ∷ 1 ∷ 0 ∷ 3 ∷ [])
    ∷ (codes "app__config_8h.html#ad8b0af485d77d52bf6cafa730a5ae5ce", 3 ∷ 0 ∷ 1 ∷ 0 ∷ 2 ∷ [])
    ∷ (codes "app__config_8h.html#ae37e2c5ee1ba700fc0bce17669ab420a", 3 ∷ 0 ∷ 1 ∷ 0 ∷ 1 ∷ [])
    ∷ (codes "app__config_8h.html#aebcd024ef472e594cbd3d47a5707bb24", 3 ∷ 0 ∷ 1 ∷ 0 ∷ 11 ∷ [])
    ∷ (codes "app__config_8h_source.html", 3 ∷ 0 ∷ 1 ∷ 0 ∷ [])
    ∷ (codes "app__types_8h.html", 3 ∷ 0 ∷ 3 ∷ 0 ∷ [])
    ∷ (codes "app__types_8h.html#a61d914b762371cb8ee60a428dfeadf22", 3 ∷ 0 ∷ 3 ∷ 0 ∷ 5 ∷ [])
    ∷ (codes "app__types_8h.html#ad566461d9a73685ff62e878451bf62db", 3 ∷ 0 ∷ 3 ∷ 0 ∷ 4 ∷ [])
    ∷ (codes "app__types_8h.html#aeadc670e6fd25b11cefab921983d1f63", 3 ∷ 0 ∷ 3 ∷ 0 ∷ 6 ∷ [])
    ∷ (codes "app__types_8h_source.html", 3 ∷ 0 ∷ 3 ∷ 0 ∷ [])
    ∷ (codes "bl__protocol__config_8h.html", 3 ∷ 0 ∷ 1 ∷ 1 ∷ [])
    ∷ (
      codes "bl__protocol__config_8h.html#a0878a3dd1f1634c5f96fd65105ed3bb5",
      3 ∷ 0 ∷ 1 ∷ 1 ∷ 8 ∷ [],
    )
    ∷ (
      codes "bl__protocol__config_8h.html#a08e25c5e8c340174d78f00e80ab54a69",
      3 ∷ 0 ∷ 1 ∷ 1 ∷ 13 ∷ [],
    )
    ∷ (
      codes "bl__protocol__config_8h.html#a242f05777bf6ebfaa5ecde0c9691b570",
      3 ∷ 0 ∷ 1 ∷ 1 ∷ 3 ∷ [],
    )
    ∷ (
      codes "bl__protocol__config_8h.html#a32eea94da50465d3b2231fcde7f2cdd2",
      3 ∷ 0 ∷ 1 ∷ 1 ∷ 2 ∷ [],
    )
    ∷ (
      codes "bl__protocol__config_8h.html#a502ee74760e5fbb30800905fadfc51f0",
      3 ∷ 0 ∷ 1 ∷ 1 ∷ 6 ∷ [],
    )
    ∷ (
      codes "bl__protocol__config_8h.html#a5c5a4f34a450c4488b40feccfffbc371",
      3 ∷ 0 ∷ 1 ∷ 1 ∷ 10 ∷ [],
    )
    ∷ (
      codes "bl__protocol__config_8h.html#a5c648bba1dbd328f7825a7c63faf82cb",
      3 ∷ 0 ∷ 1 ∷ 1 ∷ 15 ∷ [],
    )
    ∷ (
      codes "bl__protocol__config_8h.html#a5f64d6698ba90890bacddc5a71b9de98",
      3 ∷ 0 ∷ 1 ∷ 1 ∷ 0 ∷ [],
    )
    ∷ (
      codes "bl__protocol__config_8h.html#a7a8e3aba842d04a3e0bfd52a32dc04b7",
      3 ∷ 0 ∷ 1 ∷ 1 ∷ 4 ∷ [],
    )
    ∷ (
      codes "bl__protocol__config_8h.html#a82a6710aed047e4eb2b952b24e40e4b0",
      3 ∷ 0 ∷ 1 ∷ 1 ∷ 7 ∷ [],
    )
    ∷ (
      codes "bl__protocol__config_8h.html#a892bf70702741c5abad226f0dfb13352",
      3 ∷ 0 ∷ 1 ∷ 1 ∷ 1 ∷ [],
    )
    ∷ (
      codes "bl__protocol__config_8h.html#a99629ced8b127868edd402faca139a73",
      3 ∷ 0 ∷ 1 ∷ 1 ∷ 12 ∷ [],
    )
    ∷ (
      codes "bl__protocol__config_8h.html#a9bb358649a123dd680a37df0ec73c260",
      3 ∷ 0 ∷ 1 ∷ 1 ∷ 9 ∷ [],
    )
    ∷ (
      codes "bl__protocol__config_8h.html#abf52813359bfde1bf3de5457f55f510a",
      3 ∷ 0 ∷ 1 ∷ 1 ∷ 11 ∷ [],
    )
    ∷ (
      codes "bl__protocol__config_8h.html#aedc7f2dc38a86f7dda87d8df5b0a7623",
      3 ∷ 0 ∷ 1 ∷ 1 ∷ 14 ∷ [],
    )
    ∷ (
      codes "bl__protocol__config_8h.html#af8c87736ced1ad51e9de08e0d776cf48",
      3 ∷ 0 ∷ 1 ∷ 1 ∷ 5 ∷ [],
    )
    ∷ (codes "bl__protocol__config_8h_source.html", 3 ∷ 0 ∷ 1 ∷ 1 ∷ [])
    ∷ (codes "classes.html", 2 ∷ 1 ∷ [])
    ∷ (codes "comm__manager_8c.html", 3 ∷ 0 ∷ 0 ∷ 0 ∷ [])
    ∷ (codes "comm__manager_8c.html#a60f9e6609d5b686d751ed91928bc54d9", 3 ∷ 0 ∷ 0 ∷ 0 ∷ 1 ∷ [])
    ∷ (codes "comm__manager_8c_source.html", 3 ∷ 0 ∷ 0 ∷ 0 ∷ [])
    ∷ (codes "comm__manager_8h.html", 3 ∷ 0 ∷ 3 ∷ 1 ∷ [])
    ∷ (codes "comm__manager_8h_source.html", 3 ∷ 0 ∷ 3 ∷ 1 ∷ [])
    ∷ (codes "data__conversion_8c.html", 3 ∷ 0 ∷ 6 ∷ 0 ∷ [])
    ∷ (codes "data__conversion_8c.html#a8333fad69b65a51cc685d7ec955757cf", 3 ∷ 0 ∷ 6 ∷ 0 ∷ 0 ∷ [])
    ∷ (codes "data__conversion_8c.html#a8deccfb86cc253983fd37eaa3da69b82", 3 ∷ 0 ∷ 6 ∷ 0 ∷ 1 ∷ [])
    ∷ (codes "data__conversion_8c_source.html", 3 ∷ 0 ∷ 6 ∷ 0 ∷ [])
    ∷ (codes "data__conversion_8h.html", 3 ∷ 0 ∷ 3 ∷ 2 ∷ [])
    ∷ (codes "data__conversion_8h.html#a24d6fe2ac5fe0403bc92b23d82533164", 3 ∷ 0 ∷ 3 ∷ 2 ∷ 0 ∷ [])
    ∷ (codes "data__conversion_8h.html#a8deccfb86cc253983fd37eaa3da69b82", 3 ∷ 0 ∷ 3 ∷ 2 ∷ 1 ∷ [])
    ∷ (codes "data__conversion_8h_source.html", 3 ∷ 0 ∷ 3 ∷ 2 ∷ [])
    ∷ (codes "dir_01284e59d658032137ac90170bc51d5c.html", 3 ∷ 0 ∷ 5 ∷ [])
    ∷ (codes "dir_1284b95147afa48b330f502c8bbc0529.html", 3 ∷ 0 ∷ 2 ∷ [])
    ∷ (codes "dir_48915bc83c3e9a2c33920cc086982b8a.html", 3 ∷ 0 ∷ 0 ∷ [])
    ∷ (codes "dir_64e73385a8b7738563c26ce10415b58d.html", 3 ∷ 0 ∷ 6 ∷ [])
    ∷ (codes "dir_9f351d46ce3cc29445a41dc3a31e6919.html", 3 ∷ 0 ∷ 1 ∷ [])
    ∷ (codes "dir_b1b7c248586c03e23e648237ba8dbb8d.html", 3 ∷ 0 ∷ 4 ∷ [])
    ∷ (codes "dir_d44c64559bbebec7f509842c48db8b23.html", 3 ∷ 0 ∷ 3 ∷ [])
    ∷ (codes "drv__file__write_8c.html", 3 ∷ 0 ∷ 2 ∷ 0 ∷ [])
    ∷ (codes "drv__file__write_8c_source.html", 3 ∷ 0 ∷ 2 ∷ 0 ∷ [])
    ∷ (codes "drv__file__write_8h.html", 3 ∷ 0 ∷ 3 ∷ 3 ∷ [])
    ∷ (codes "drv__file__write_8h_source.html", 3 ∷ 0 ∷ 3 ∷ 3 ∷ [])
    ∷ (codes "drv__print_8h.html", 3 ∷ 0 ∷ 3 ∷ 4 ∷ [])
    ∷ (codes "drv__print_8h_source.html", 3 ∷ 0 ∷ 3 ∷ 4 ∷ [])
    ∷ (codes "drv__serial_8c.html", 3 ∷ 0 ∷ 2 ∷ 1 ∷ [])
    ∷ (codes "drv__serial_8c_source.html", 3 ∷ 0 ∷ 2 ∷ 1 ∷ [])
    ∷ (codes "drv__serial_8h.html", 3 ∷ 0 ∷ 3 ∷ 5 ∷ [])
    ∷ (codes "drv__serial_8h_source.html", 3 ∷ 0 ∷ 3 ∷ 5 ∷ [])
    ∷ (codes "drv__tcp_8c.html", 3 ∷ 0 ∷ 2 ∷ 2 ∷ [])
    ∷ (codes "drv__tcp_8c_source.html", 3 ∷ 0 ∷ 2 ∷ 2 ∷ [])
    ∷ (codes "drv__tcp_8h.html", 3 ∷ 0 ∷ 3 ∷ 6 ∷ [])
    ∷ (codes "drv__tcp_8h_source.html", 3 ∷ 0 ∷ 3 ∷ 6 ∷ [])
    ∷ (codes "drv__udp_8c.html", 3 ∷ 0 ∷ 2 ∷ 3 ∷ [])
    ∷ (codes "drv__udp_8c_source.html", 3 ∷ 0 ∷ 2 ∷ 3 ∷ [])
    ∷ (codes "drv__udp_8h.html", 3 ∷ 0 ∷ 3 ∷ 7 ∷ [])
    ∷ (codes "drv__udp_8h_source.html", 3 ∷ 0 ∷ 3 ∷ 7 ∷ [])
    ∷ (codes "file__mgmt_8c.html", 3 ∷ 0 ∷ 6 ∷ 1 ∷ [])
    ∷ (codes "file__mgmt_8c.html#a5320ff8edfa100f6fc5ecfca6260337b", 3 ∷ 0 ∷ 6 ∷ 1 ∷ 3 ∷ [])
    ∷ (codes "file__mgmt_8c.html#a708fe8c204bffdeb918e030cb12309a4", 3 ∷ 0 ∷ 6 ∷ 1 ∷ 2 ∷ [])
    ∷ (codes "file__mgmt_8c.html#aac2c266dea8c56c13b7e5928a2c7a62a", 3 ∷ 0 ∷ 6 ∷ 1 ∷ 0 ∷ [])
    ∷ (codes "file__mgmt_8c.html#ae1b059c98cc30e1962f7fd2b92984fb5", 3 ∷ 0 ∷ 6 ∷ 1 ∷ 1 ∷ [])
    ∷ (codes "file__mgmt_8c.html#ae835e89080f4bcd053c08808210aa2b9", 3 ∷ 0 ∷ 6 ∷ 1 ∷ 4 ∷ [])
    ∷ (codes "file__mgmt_8c_source.html", 3 ∷ 0 ∷ 6 ∷ 1 ∷ [])
    ∷ (codes "file__mgmt_8h.html", 3 ∷ 0 ∷ 3 ∷ 8 ∷ [])
    ∷ (codes "file__mgmt_8h.html#a708fe8c204bffdeb918e030cb12309a4", 3 ∷ 0 ∷ 3 ∷ 8 ∷ 2 ∷ [])
    ∷ (codes "file__mgmt_8h.html#aac2c266dea8c56c13b7e5928a2c7a62a", 3 ∷ 0 ∷ 3 ∷ 8 ∷ 0 ∷ [])
    ∷ (codes "file__mgmt_8h.html#ae1b059c98cc30e1962f7fd2b92984fb5", 3 ∷ 0 ∷ 3 ∷ 8 ∷ 1 ∷ [])
    ∷ (codes "file__mgmt_8h_source.html", 3 ∷ 0 ∷ 3 ∷ 8 ∷ [])
    ∷ (codes "files.html", 3 ∷ 0 ∷ [])
    ∷ (codes "fsm_8c.html", 3 ∷ 0 ∷ 6 ∷ 2 ∷ [])
    ∷ (codes "fsm_8c.html#a06fc4294fc6e4443f15485fdac99ba86", 3 ∷ 0 ∷ 6 ∷ 2 ∷ 8 ∷ [])
    ∷ (codes "fsm_8c.html#a14cf70907548d97c96fcf11f73ef7323", 3 ∷ 0 ∷ 6 ∷ 2 ∷ 0 ∷ [])
    ∷ (codes "fsm_8c.html#a26be038631bc6cf3545dbc36eed68333", 3 ∷ 0 ∷ 6 ∷ 2 ∷ 3 ∷ [])
    ∷ (codes "fsm_8c.html#a475d96c0802947c8c4530bae432ede86", 3 ∷ 0 ∷ 6 ∷ 2 ∷ 6 ∷ [])
    ∷ (codes "fsm_8c.html#a8358cf7dadca09cdd14b1373d6085820", 3 ∷ 0 ∷ 6 ∷ 2 ∷ 7 ∷ [])
    ∷ (codes "fsm_8c.html#ab8d4c422ac69de5ff521229f119c3bb6", 3 ∷ 0 ∷ 6 ∷ 2 ∷ 4 ∷ [])
    ∷ (codes "fsm_8c.html#abe13b35f97c1ae2dbbd4448799506cb3", 3 ∷ 0 ∷ 6 ∷ 2 ∷ 2 ∷ [])
    ∷ (codes "fsm_8c.html#ac3d6b1adb70a75e55afed2d3bd97ba48", 3 ∷ 0 ∷ 6 ∷ 2 ∷ 1 ∷ [])
    ∷ (codes "fsm_8c.html#ad000720b6911acae32fe80725ce177a2", 3 ∷ 0 ∷ 6 ∷ 2 ∷ 5 ∷ [])
    ∷ (codes "fsm_8c_source.html", 3 ∷ 0 ∷ 6 ∷ 2 ∷ [])
    ∷ (codes "fsm_8h.html", 3 ∷ 0 ∷ 3 ∷ 9 ∷ [])
    ∷ (codes "fsm_8h.html#a06fc4294fc6e4443f15485fdac99ba86", 3 ∷ 0 ∷ 3 ∷ 9 ∷ 13 ∷ [])
    ∷ (codes "fsm_8h.html#a14cf70907548d97c96fcf11f73ef7323", 3 ∷ 0 ∷ 3 ∷ 9 ∷ 9 ∷ [])
    ∷ (codes "fsm_8h.html#a16bf72955d2e13a16f555c9d4fe26f47", 3 ∷ 0 ∷ 3 ∷ 9 ∷ 7 ∷ [])
    ∷ (codes "fsm_8h.html#a26be038631bc6cf3545dbc36eed68333", 3 ∷ 0 ∷ 3 ∷ 9 ∷ 11 ∷ [])
    ∷ (codes "fsm_8h.html#a27e3c1f19a1afbb8d6b5bcfc5f5a3ab7", 3 ∷ 0 ∷ 3 ∷ 9 ∷ 4 ∷ [])
    ∷ (codes "fsm_8h.html#a5238d8aefb18b46c990f5652c67bc91b", 3 ∷ 0 ∷ 3 ∷ 9 ∷ 6 ∷ [])
    ∷ (codes "fsm_8h.html#a94a3d1b22a6d8e0c292ce97108d2f161", 3 ∷ 0 ∷ 3 ∷ 9 ∷ 8 ∷ [])
    ∷ (codes "fsm_8h.html#a9b14ec89be7a393fa0fc48481ba107cc", 3 ∷ 0 ∷ 3 ∷ 9 ∷ 5 ∷ [])
    ∷ (codes "fsm_8h.html#abe13b35f97c1ae2dbbd4448799506cb3", 3 ∷ 0 ∷ 3 ∷ 9 ∷ 10 ∷ [])
    ∷ (codes "fsm_8h.html#ad000720b6911acae32fe80725ce177a2", 3 ∷ 0 ∷ 3 ∷ 9 ∷ 12 ∷ [])
    ∷ (codes "fsm_8h_source.html", 3 ∷ 0 ∷ 3 ∷ 9 ∷ [])
    ∷ (codes "fsm__actions_8c.html", 3 ∷ 0 ∷ 4 ∷ 0 ∷ [])
    ∷ (codes "fsm__actions_8c.html#a12525684e33416b92838113633d75a4b", 3 ∷ 0 ∷ 4 ∷ 0 ∷ 4 ∷ [])
    ∷ (codes "fsm__actions_8c.html#a27a66ec21bf14230e3f37a7b01dafcfc", 3 ∷ 0 ∷ 4 ∷ 0 ∷ 14 ∷ [])
    ∷ (codes "fsm__actions_8c.html#a2ef549a7b19fed9cadb435c290506d42", 3 ∷ 0 ∷ 4 ∷ 0 ∷ 5 ∷ [])
    ∷ (codes "fsm__actions_8c.html#a30fa40702d745f994126b95b320a7c00", 3 ∷ 0 ∷ 4 ∷ 0 ∷ 1 ∷ [])
    ∷ (codes "fsm__actions_8c.html#a581ee2a66815a3f4c6cb3b5facb6565c", 3 ∷ 0 ∷ 4 ∷ 0 ∷ 7 ∷ [])
    ∷ (codes "fsm__actions_8c.html#a731656fd68d8adc53bc52df18c406774", 3 ∷ 0 ∷ 4 ∷ 0 ∷ 12 ∷ [])
    ∷ (codes "fsm__actions_8c.html#a845d0596483165c3cebda4f8ed027548", 3 ∷ 0 ∷ 4 ∷ 0 ∷ 6 ∷ [])
    ∷ (codes "fsm__actions_8c.html#a8bcb6c3eba916f7d74b24d39ea749320", 3 ∷ 0 ∷ 4 ∷ 0 ∷ 10 ∷ [])
    ∷ (codes "fsm__actions_8c.html#a9f2087c838dc1465ad1c20919500acb2", 3 ∷ 0 ∷ 4 ∷ 0 ∷ 15 ∷ [])
    ∷ (codes "fsm__actions_8c.html#aa08ea3d9e1f52c7781e2d23cacf2b74b", 3 ∷ 0 ∷ 4 ∷ 0 ∷ 9 ∷ [])
    ∷ (codes "fsm__actions_8c.html#aad0058b4ac9a3cca991219a9edab36fd", 3 ∷ 0 ∷ 4 ∷ 0 ∷ 0 ∷ [])
    ∷ (codes "fsm__actions_8c.html#aba0118faa3daf9d227b5b869424ad919", 3 ∷ 0 ∷ 4 ∷ 0 ∷ 2 ∷ [])
    ∷ (codes "fsm__actions_8c.html#abef98c4e15ab6f596fb40d4b2da1330c", 3 ∷ 0 ∷ 4 ∷ 0 ∷ 13 ∷ [])
    ∷ (codes "fsm__actions_8c.html#ac14459aacecc1aa151e5bb87facb231e", 3 ∷ 0 ∷ 4 ∷ 0 ∷ 3 ∷ [])
    ∷ (codes "fsm__actions_8c.html#ad56cda874c74637b07d460636080332e", 3 ∷ 0 ∷ 4 ∷ 0 ∷ 8 ∷ [])
    ∷ (codes "fsm__actions_8c.html#af11304f737d76098b2f37e16515c1c47", 3 ∷ 0 ∷ 4 ∷ 0 ∷ 11 ∷ [])
    ∷ (codes "fsm__actions_8c_source.html", 3 ∷ 0 ∷ 4 ∷ 0 ∷ [])
    ∷ (codes "fsm__actions_8h.html", 3 ∷ 0 ∷ 3 ∷ 10 ∷ [])
    ∷ (codes "fsm__actions_8h.html#a12525684e33416b92838113633d75a4b", 3 ∷ 0 ∷ 3 ∷ 10 ∷ 5 ∷ [])
    ∷ (codes "fsm__actions_8h.html#a2ef549a7b19fed9cadb435c290506d42", 3 ∷ 0 ∷ 3 ∷ 10 ∷ 6 ∷ [])
    ∷ (codes "fsm__actions_8h.html#a30fa40702d745f994126b95b320a7c00", 3 ∷ 0 ∷ 3 ∷ 10 ∷ 2 ∷ [])
    ∷ (codes "fsm__actions_8h.html#a581ee2a66815a3f4c6cb3b5facb6565c", 3 ∷ 0 ∷ 3 ∷ 10 ∷ 8 ∷ [])
    ∷ (codes "fsm__actions_8h.html#a845d0596483165c3cebda4f8ed027548", 3 ∷ 0 ∷ 3 ∷ 10 ∷ 7 ∷ [])
    ∷ (codes "fsm__actions_8h.html#a8bcb6c3eba916f7d74b24d39ea749320", 3 ∷ 0 ∷ 3 ∷ 10 ∷ 11 ∷ [])
    ∷ (codes "fsm__actions_8h.html#aa08ea3d9e1f52c7781e2d23cacf2b74b", 3 ∷ 0 ∷ 3 ∷ 10 ∷ 10 ∷ [])
    ∷ (codes "fsm__actions_8h.html#aa43abf0f3d3f5cf207b4a78d474d3a53", 3 ∷ 0 ∷ 3 ∷ 10 ∷ 1 ∷ [])
    ∷ (codes "fsm__actions_8h.html#aba0118faa3daf9d227b5b869424ad919", 3 ∷ 0 ∷ 3 ∷ 10 ∷ 3 ∷ [])
    ∷ (codes "fsm__actions_8h.html#ac14459aacecc1aa151e5bb87facb231e", 3 ∷ 0 ∷ 3 ∷ 10 ∷ 4 ∷ [])
    ∷ (codes "fsm__actions_8h.html#ad56cda874c74637b07d460636080332e", 3 ∷ 0 ∷ 3 ∷ 10 ∷ 9 ∷ [])
    ∷ (codes "fsm__actions_8h.html#af11304f737d76098b2f37e16515c1c47", 3 ∷ 0 ∷ 3 ∷ 10 ∷ 12 ∷ [])
    ∷ (codes "fsm__actions_8h_source.html", 3 ∷ 0 ∷ 3 ∷ 10 ∷ [])
    ∷ (codes "fsm__table_8c.html", 3 ∷ 0 ∷ 4 ∷ 1 ∷ [])
    ∷ (codes "fsm__table_8c.html#a296ec7a3b0c5359e7ff9245897e0bc92", 3 ∷ 0 ∷ 4 ∷ 1 ∷ 2 ∷ [])
    ∷ []

abbrev pub lower_part : Table
lower_part =
    (codes "fsm__table_8c.html#a2c14ac74a773f77ff88ab95c30dfebf2", 3 ∷ 0 ∷ 4 ∷ 1 ∷ 0 ∷ [])
    ∷ (codes "fsm__table_8c.html#a3503b9581517c82bc4134a2a1ea7fcd3", 3 ∷ 0 ∷ 4 ∷ 1 ∷ 3 ∷ [])
    ∷ (codes "fsm__table_8c.html#a4030fcb874729d904f5fa1abb58a3a12", 3 ∷ 0 ∷ 4 ∷ 1 ∷ 6 ∷ [])
    ∷ (codes "fsm__table_8c.html#a436d30cd222a359df4bdb78d9117ec45", 3 ∷ 0 ∷ 4 ∷ 1 ∷ 5 ∷ [])
    ∷ (codes "fsm__table_8c.html#a51cce8eeb51e2880461a188405bbbc11", 3 ∷ 0 ∷ 4 ∷ 1 ∷ 9 ∷ [])
    ∷ (codes "fsm__table_8c.html#a951d910642faac70d239b7854bacfa2f", 3 ∷ 0 ∷ 4 ∷ 1 ∷ 1 ∷ [])
    ∷ (codes "fsm__table_8c.html#a9b7dc5b3fe94159c83b079281116f5ed", 3 ∷ 0 ∷ 4 ∷ 1 ∷ 4 ∷ [])
    ∷ (codes "fsm__table_8c.html#aaaea4aba7cdffbe91db9f7de87792f76", 3 ∷ 0 ∷ 4 ∷ 1 ∷ 7 ∷ [])
    ∷ (codes "fsm__table_8c.html#ae3a2f7c13f0bba78917ba66c2696048c", 3 ∷ 0 ∷ 4 ∷ 1 ∷ 8 ∷ [])
    ∷ (codes "fsm__table_8c_source.html", 3 ∷ 0 ∷ 4 ∷ 1 ∷ [])
    ∷ (codes "fsm__table_8h.html", 3 ∷ 0 ∷ 3 ∷ 11 ∷ [])
    ∷ (codes "fsm__table_8h.html#a296ec7a3b0c5359e7ff9245897e0bc92", 3 ∷ 0 ∷ 3 ∷ 11 ∷ 2 ∷ [])
    ∷ (codes "fsm__table_8h.html#a2c14ac74a773f77ff88ab95c30dfebf2", 3 ∷ 0 ∷ 3 ∷ 11 ∷ 0 ∷ [])
    ∷ (codes "fsm__table_8h.html#a3503b9581517c82bc4134a2a1ea7fcd3", 3 ∷ 0 ∷ 3 ∷ 11 ∷ 3 ∷ [])
    ∷ (codes "fsm__table_8h.html#a4030fcb874729d904f5fa1abb58a3a12", 3 ∷ 0 ∷ 3 ∷ 11 ∷ 6 ∷ [])
    ∷ (codes "fsm__table_8h.html#a436d30cd222a359df4bdb78d9117ec45", 3 ∷ 0 ∷ 3 ∷ 11 ∷ 5 ∷ [])
    ∷ (codes "fsm__table_8h.html#a51cce8eeb51e2880461a188405bbbc11", 3 ∷ 0 ∷ 3 ∷ 11 ∷ 9 ∷ [])
    ∷ (codes "fsm__table_8h.html#a951d910642faac70d239b7854bacfa2f", 3 ∷ 0 ∷ 3 ∷ 11 ∷ 1 ∷ [])
    ∷ (codes "fsm__table_8h.html#a9b7dc5b3fe94159c83b079281116f5ed", 3 ∷ 0 ∷ 3 ∷ 11 ∷ 4 ∷ [])
    ∷ (codes "fsm__table_8h.html#aaaea4aba7cdffbe91db9f7de87792f76", 3 ∷ 0 ∷ 3 ∷ 11 ∷ 7 ∷ [])
    ∷ (codes "fsm__table_8h.html#ae3a2f7c13f0bba78917ba66c2696048c", 3 ∷ 0 ∷ 3 ∷ 11 ∷ 8 ∷ [])
    ∷ (codes "fsm__table_8h_source.html", 3 ∷ 0 ∷ 3 ∷ 11 ∷ [])
    ∷ (codes "functions.html", 2 ∷ 2 ∷ 0 ∷ [])
    ∷ (codes "functions_vars.html", 2 ∷ 2 ∷ 1 ∷ [])
    ∷ (codes "global_8c.html", 3 ∷ 0 ∷ 4 ∷ 2 ∷ [])
    ∷ (codes "global_8c.html#a2d80a392c61c7d94ac7517448568dcbd", 3 ∷ 0 ∷ 4 ∷ 2 ∷ 0 ∷ [])
    ∷ (codes "global_8c.html#aba290f142b26d1e392508cf76f49198d", 3 ∷ 0 ∷ 4 ∷ 2 ∷ 1 ∷ [])
    ∷ (codes "global_8c_source.html", 3 ∷ 0 ∷ 4 ∷ 2 ∷ [])
    ∷ (codes "global_8h.html", 3 ∷ 0 ∷ 3 ∷ 12 ∷ [])
    ∷ (codes "global_8h.html#a0e4c82840d549d876223416d8ae11356", 3 ∷ 0 ∷ 3 ∷ 12 ∷ 0 ∷ [])
    ∷ (
      codes "global_8h.html#a0e4c82840d549d876223416d8ae11356a119ca65a21579159d3672e25ad6fc8c6",
      3 ∷ 0 ∷ 3 ∷ 12 ∷ 0 ∷ 3 ∷ [],
    )
    ∷ (
      codes "global_8h.html#a0e4c82840d549d876223416d8ae11356a2f254f6e51709c4563e81292ed60c15b",
      3 ∷ 0 ∷ 3 ∷ 12 ∷ 0 ∷ 7 ∷ [],
    )
    ∷ (
      codes "global_8h.html#a0e4c82840d549d876223416d8ae11356a65b53e5b12b3d15b604edde75f290cc0",
      3 ∷ 0 ∷ 3 ∷ 12 ∷ 0 ∷ 2 ∷ [],
    )
    ∷ (
      codes "global_8h.html#a0e4c82840d549d876223416d8ae11356a769e974ce0b03b93564083e5c8474ce3",
      3 ∷ 0 ∷ 3 ∷ 12 ∷ 0 ∷ 6 ∷ [],
    )
    ∷ (
      codes "global_8h.html#a0e4c82840d549d876223416d8ae11356a9073c88bcc0dd3fa8148a254c9cac41d",
      3 ∷ 0 ∷ 3 ∷ 12 ∷ 0 ∷ 0 ∷ [],
    )
    ∷ (
      codes "global_8h.html#a0e4c82840d549d876223416d8ae11356ab1d34ca3af3798726d199b474e889648",
      3 ∷ 0 ∷ 3 ∷ 12 ∷ 0 ∷ 4 ∷ [],
    )
    ∷ (
      codes "global_8h.html#a0e4c82840d549d876223416d8ae11356ab42abe8b218ff5dc360aeaffcac007ae",
      3 ∷ 0 ∷ 3 ∷ 12 ∷ 0 ∷ 5 ∷ [],
    )
    ∷ (
      codes "global_8h.html#a0e4c82840d549d876223416d8ae11356ad6f73ee323baff5db3849625a5f56362",
      3 ∷ 0 ∷ 3 ∷ 12 ∷ 0 ∷ 1 ∷ [],
    )
    ∷ (codes "global_8h.html#a2d80a392c61c7d94ac7517448568dcbd", 3 ∷ 0 ∷ 3 ∷ 12 ∷ 2 ∷ [])
    ∷ (codes "global_8h.html#a5241f0e440610180087073ea2cedcc4a", 3 ∷ 0 ∷ 3 ∷ 12 ∷ 1 ∷ [])
    ∷ (
      codes "global_8h.html#a5241f0e440610180087073ea2cedcc4aa08629170aea608df1a29c10a280f877f",
      3 ∷ 0 ∷ 3 ∷ 12 ∷ 1 ∷ 7 ∷ [],
    )
    ∷ (
      codes "global_8h.html#a5241f0e440610180087073ea2cedcc4aa1396962b73f8fa31d68a1aaa303c5561",
      3 ∷ 0 ∷ 3 ∷ 12 ∷ 1 ∷ 4 ∷ [],
    )
    ∷ (
      codes "global_8h.html#a5241f0e440610180087073ea2cedcc4aa36eb09ae8d3624b952ffd2442dde7b0a",
      3 ∷ 0 ∷ 3 ∷ 12 ∷ 1 ∷ 1 ∷ [],
    )
    ∷ (
      codes "global_8h.html#a5241f0e440610180087073ea2cedcc4aa3c58974cb4609ac528397b2a4dd8d000",
      3 ∷ 0 ∷ 3 ∷ 12 ∷ 1 ∷ 5 ∷ [],
    )
    ∷ (
      codes "global_8h.html#a5241f0e440610180087073ea2cedcc4aa61a50f76d2ba26654d08c983fe837eb9",
      3 ∷ 0 ∷ 3 ∷ 12 ∷ 1 ∷ 6 ∷ [],
    )
    ∷ (
      codes "global_8h.html#a5241f0e440610180087073ea2cedcc4aa90351cf914684f39688c5b12254a6c40",
      3 ∷ 0 ∷ 3 ∷ 12 ∷ 1 ∷ 3 ∷ [],
    )
    ∷ (
      codes "global_8h.html#a5241f0e440610180087073ea2cedcc4aad7fd527e9b09b1822fbee87683a69937",
      3 ∷ 0 ∷ 3 ∷ 12 ∷ 1 ∷ 0 ∷ [],
    )
    ∷ (
      codes "global_8h.html#a5241f0e440610180087073ea2cedcc4aafb096932757539bcbf868326e2cd9741",
      3 ∷ 0 ∷ 3 ∷ 12 ∷ 1 ∷ 2 ∷ [],
    )
    ∷ (codes "global_8h.html#aba290f142b26d1e392508cf76f49198d", 3 ∷ 0 ∷ 3 ∷ 12 ∷ 3 ∷ [])
    ∷ (codes "global_8h_source.html", 3 ∷ 0 ∷ 3 ∷ 12 ∷ [])
    ∷ (codes "globals.html", 3 ∷ 1 ∷ 0 ∷ [])
    ∷ (codes "globals.html", 3 ∷ 1 ∷ 0 ∷ 0 ∷ [])
    ∷ (codes "globals_a.html", 3 ∷ 1 ∷ 0 ∷ 1 ∷ [])
    ∷ (codes "globals_b.html", 3 ∷ 1 ∷ 0 ∷ 2 ∷ [])
    ∷ (codes "globals_c.html", 3 ∷ 1 ∷ 0 ∷ 3 ∷ [])
    ∷ (codes "globals_d.html", 3 ∷ 1 ∷ 0 ∷ 4 ∷ [])
    ∷ (codes "globals_defs.html", 3 ∷ 1 ∷ 6 ∷ [])
    ∷ (codes "globals_e.html", 3 ∷ 1 ∷ 0 ∷ 5 ∷ [])
    ∷ (codes "globals_enum.html", 3 ∷ 1 ∷ 4 ∷ [])
    ∷ (codes "globals_eval.html", 3 ∷ 1 ∷ 5 ∷ [])
    ∷ (codes "globals_f.html", 3 ∷ 1 ∷ 0 ∷ 6 ∷ [])
    ∷ (codes "globals_func.html", 3 ∷ 1 ∷ 1 ∷ [])
    ∷ (codes "globals_g.html", 3 ∷ 1 ∷ 0 ∷ 7 ∷ [])
    ∷ (codes "globals_h.html", 3 ∷ 1 ∷ 0 ∷ 8 ∷ [])
    ∷ (codes "globals_i.html", 3 ∷ 1 ∷ 0 ∷ 9 ∷ [])
    ∷ (codes "globals_m.html", 3 ∷ 1 ∷ 0 ∷ 10 ∷ [])
    ∷ (codes "globals_p.html", 3 ∷ 1 ∷ 0 ∷ 11 ∷ [])
    ∷ (codes "globals_q.html", 3 ∷ 1 ∷ 0 ∷ 12 ∷ [])
    ∷ (codes "globals_r.html", 3 ∷ 1 ∷ 0 ∷ 13 ∷ [])
    ∷ (codes "globals_s.html", 3 ∷ 1 ∷ 0 ∷ 14 ∷ [])
    ∷ (codes "globals_t.html", 3 ∷ 1 ∷ 0 ∷ 15 ∷ [])
    ∷ (codes "globals_type.html", 3 ∷ 1 ∷ 3 ∷ [])
    ∷ (codes "globals_u.html", 3 ∷ 1 ∷ 0 ∷ 16 ∷ [])
    ∷ (codes "globals_v.html", 3 ∷ 1 ∷ 0 ∷ 17 ∷ [])
    ∷ (codes "globals_vars.html", 3 ∷ 1 ∷ 2 ∷ [])
    ∷ (codes "group__SERIAL__DRIVER.html", 1 ∷ 2 ∷ [])
    ∷ (codes "group__SERIAL__DRIVER.html#ga41695b5f1f2dedf4a47d11ca11d900d8", 1 ∷ 2 ∷ 2 ∷ [])
    ∷ (codes "group__SERIAL__DRIVER.html#ga81aefbc8110150cedd39b8ccf2616a3e", 1 ∷ 2 ∷ 1 ∷ [])
    ∷ (codes "group__SERIAL__DRIVER.html#gae4fa79266590d2583fd8ddc6d098af65", 1 ∷ 2 ∷ 4 ∷ [])
    ∷ (codes "group__SERIAL__DRIVER.html#gaef42880ca2d86c05c96db8b18bd3407d", 1 ∷ 2 ∷ 3 ∷ [])
    ∷ (codes "group__TCP__DRIVER.html", 1 ∷ 3 ∷ [])
    ∷ (codes "group__TCP__DRIVER.html#ga004c5b7aa180eb3a5efcab4eb84d8047", 1 ∷ 3 ∷ 1 ∷ [])
    ∷ (codes "group__TCP__DRIVER.html#ga693daa68c7dc7a045c6399756535226f", 1 ∷ 3 ∷ 4 ∷ [])
    ∷ (codes "group__TCP__DRIVER.html#gae09776d4bcafadfbc5f71480b736f96f", 1 ∷ 3 ∷ 2 ∷ [])
    ∷ (codes "group__TCP__DRIVER.html#gaff3cc1172d7da1fef9095a19541f2636", 1 ∷ 3 ∷ 3 ∷ [])
    ∷ (codes "group__TRANSPORT__LAYER.html", 1 ∷ 7 ∷ [])
    ∷ (codes "group__TRANSPORT__LAYER.html#ga00a075bfd1818bb346663df52a36811d", 1 ∷ 7 ∷ 0 ∷ [])
    ∷ (codes "group__TRANSPORT__LAYER.html#ga05e7308a7260020be9c26eebe0718737", 1 ∷ 7 ∷ 3 ∷ [])
    ∷ (codes "group__TRANSPORT__LAYER.html#ga3810bffe850fa3cf09d22ff38c870d9e", 1 ∷ 7 ∷ 4 ∷ [])
    ∷ (codes "group__TRANSPORT__LAYER.html#ga4eb4dc2364503bfd28ed609329ad3418", 1 ∷ 7 ∷ 1 ∷ [])
    ∷ (codes "group__TRANSPORT__LAYER.html#gad4eb55d286acd17e8140144831c9760a", 1 ∷ 7 ∷ 2 ∷ [])
    ∷ (codes "group__UDP__DRIVER.html", 1 ∷ 4 ∷ [])
    ∷ (codes "group__UDP__DRIVER.html#ga216ad2a24eb4eec3c2bb404020ecb6c8", 1 ∷ 4 ∷ 3 ∷ [])
    ∷ (codes "group__UDP__DRIVER.html#ga24d21f814959c1c93a5dfdcdfb55c4ec", 1 ∷ 4 ∷ 4 ∷ [])
    ∷ (codes "group__UDP__DRIVER.html#ga40e98a33ba90effab15d2593d8f47212", 1 ∷ 4 ∷ 1 ∷ [])
    ∷ (codes "group__UDP__DRIVER.html#gaaf6cf358edf69aedb4f9f5dd00fd4e6e", 1 ∷ 4 ∷ 2 ∷ [])
    ∷ (codes "group__comm__manager.html", 1 ∷ 0 ∷ [])
    ∷ (codes "group__comm__manager.html#gabb9ae1e3dfc392e8e32349ac3f7d8951", 1 ∷ 0 ∷ 1 ∷ [])
    ∷ (codes "group__fileio.html", 1 ∷ 1 ∷ [])
    ∷ (codes "group__fileio.html#ga24618485737c6138276448ea8db0a6b5", 1 ∷ 1 ∷ 2 ∷ [])
    ∷ (codes "group__fileio.html#ga3b995c37144fee8daca30ca179f9da0c", 1 ∷ 1 ∷ 5 ∷ [])
    ∷ (codes "group__fileio.html#ga54d8852f9e9415368043b7e18c66fb7f", 1 ∷ 1 ∷ 6 ∷ [])
    ∷ []

abbrev pub navtreeindex0 : Table
navtreeindex0 = upper_part ++ lower_part
