-- ===== src/Docs/NavTree/Index/Second.antt =====
-- docs/navtreeindex1.js, the table from addresses to paths, in two parts.
use re_boot.Base.{[], ◌∷◌, ◌++◌, codes}
use re_boot.Docs.NavTree.{Table}

abbrev pub upper_part : Table
upper_part =
    (codes "group__fileio.html#ga6b358f78e9e2c28d530f45af26ca9a81", 1 ∷ 1 ∷ 1 ∷ [])
    ∷ (codes "group__fileio.html#ga8fdda8e47e1349449a4df9d0afa10465", 1 ∷ 1 ∷ 3 ∷ [])
    ∷ (codes "group__fileio.html#ga90659969676af7859a25d9e652411e0e", 1 ∷ 1 ∷ 4 ∷ [])
    ∷ (
      codes
          "group__fileio.html#gga6b358f78e9e2c28d530f45af26ca9a81a54783dc79eb9232cb188a955427e0fa2",
      1 ∷ 1 ∷ 1 ∷ 0 ∷ [],
    )
    ∷ (
      codes
          "group__fileio.html#gga6b358f78e9e2c28d530f45af26ca9a81ae0d44ffe5270479443d2f62c651223df",
      1 ∷ 1 ∷ 1 ∷ 1 ∷ [],
    )
    ∷ (codes "group__queue.html", 1 ∷ 5 ∷ [])
    ∷ (codes "group__queue.html#ga166305c3a00939b16e2e366dbc652029", 1 ∷ 5 ∷ 3 ∷ [])
    ∷ (codes "group__queue.html#ga44ce357514655026fe20937400078f0a", 1 ∷ 5 ∷ 6 ∷ [])
    ∷ (codes "group__queue.html#ga752850f8d0a1ad468ee02483d5b908aa", 1 ∷ 5 ∷ 4 ∷ [])
    ∷ (codes "group__queue.html#ga868f5396e1d83ad6d435d2550e5a08d2", 1 ∷ 5 ∷ 8 ∷ [])
    ∷ (codes "group__queue.html#gaa5d9dee3debc83b10e1845c74ba8bfc1", 1 ∷ 5 ∷ 7 ∷ [])
    ∷ (codes "group__queue.html#gaae4aec91fde92a54f3bf51bfad3dfa32", 1 ∷ 5 ∷ 2 ∷ [])
    ∷ (codes "group__queue.html#gab63600b087edc17e2f73432803844574", 1 ∷ 5 ∷ 5 ∷ [])
    ∷ (codes "group__thread.html", 1 ∷ 6 ∷ [])
    ∷ (codes "group__thread.html#ga2d25d82d30b3072ddfb12a92a4859900", 1 ∷ 6 ∷ 10 ∷ [])
    ∷ (codes "group__thread.html#ga3582a040ff9bb0cfd05bdd660f1f0d4f", 1 ∷ 6 ∷ 11 ∷ [])
    ∷ (codes "group__thread.html#ga41f7e8a00732d0632bbf6e60a95dde70", 1 ∷ 6 ∷ 13 ∷ [])
    ∷ (codes "group__thread.html#ga547b53d25d3ed07a8f6f7b7e5b2182ab", 1 ∷ 6 ∷ 9 ∷ [])
    ∷ (codes "group__thread.html#ga65899f8cb7f5447d9f378aaddc998be2", 1 ∷ 6 ∷ 6 ∷ [])
    ∷ (codes "group__thread.html#ga74fe83ee0a205f999bb893c0fe0a09dc", 1 ∷ 6 ∷ 5 ∷ [])
    ∷ (codes "group__thread.html#ga8a504d554951b72d56628ab38db95548", 1 ∷ 6 ∷ 4 ∷ [])
    ∷ (codes "group__thread.html#ga8f23b48fe117fe9072c9669a82623fbd", 1 ∷ 6 ∷ 8 ∷ [])
    ∷ (codes "group__thread.html#gaaa9229e0f462f60bb9550919fa3d7699", 1 ∷ 6 ∷ 17 ∷ [])
    ∷ (codes "group__thread.html#gab7a6c11b689c5a604768febb69ffa8b9", 1 ∷ 6 ∷ 15 ∷ [])
    ∷ (codes "group__thread.html#gacfa2f485b822873950ca9c985aa03d83", 1 ∷ 6 ∷ 3 ∷ [])
    ∷ (codes "group__thread.html#gae11e971acf52cb10a0e471c291cd9505", 1 ∷ 6 ∷ 12 ∷ [])
    ∷ (codes "group__thread.html#gaebfe3313fd7781c10e25133ae23abafe", 1 ∷ 6 ∷ 7 ∷ [])
    ∷ (codes "group__thread.html#gaec107178eea775c305ff98ca3a61febc", 1 ∷ 6 ∷ 16 ∷ [])
    ∷ (codes "group__thread.html#gaf941383560e7470475d27c07351825e2", 1 ∷ 6 ∷ 14 ∷ [])
    ∷ (codes "index.html", 0 ∷ [])
    ∷ (codes "index.html#autotoc_md10", 0 ∷ 4 ∷ [])
    ∷ (codes "index.html#autotoc_md11", 0 ∷ 4 ∷ 0 ∷ [])
    ∷ (codes "index.html#autotoc_md12", 0 ∷ 4 ∷ 1 ∷ [])
    ∷ (codes "index.html#autotoc_md13", 0 ∷ 4 ∷ 2 ∷ [])
    ∷ (codes "index.html#autotoc_md15", 0 ∷ 5 ∷ [])
    ∷ (codes "index.html#autotoc_md16", 0 ∷ 5 ∷ 0 ∷ [])
    ∷ (codes "index.html#autotoc_md17", 0 ∷ 5 ∷ 1 ∷ [])
    ∷ (codes "index.html#autotoc_md19", 0 ∷ 6 ∷ [])
    ∷ (codes "index.html#autotoc_md2", 0 ∷ 0 ∷ [])
    ∷ (codes "index.html#autotoc_md21", 0 ∷ 7 ∷ [])
    ∷ (codes "index.html#autotoc_md23", 0 ∷ 7 ∷ 0 ∷ [])
    ∷ (codes "index.html#autotoc_md24", 0 ∷ 7 ∷ 0 ∷ 0 ∷ [])
    ∷ (codes "index.html#autotoc_md25", 0 ∷ 7 ∷ 0 ∷ 1 ∷ [])
    ∷ (codes "index.html#autotoc_md26", 0 ∷ 7 ∷ 0 ∷ 2 ∷ [])
    ∷ (codes "index.html#autotoc_md27", 0 ∷ 7 ∷ 0 ∷ 3 ∷ [])
    ∷ (codes "index.html#autotoc_md29", 0 ∷ 7 ∷ 1 ∷ [])
    ∷ (codes "index.html#autotoc_md30", 0 ∷ 7 ∷ 1 ∷ 0 ∷ [])
    ∷ (codes "index.html#autotoc_md31", 0 ∷ 7 ∷ 1 ∷ 1 ∷ [])
    ∷ (codes "index.html#autotoc_md32", 0 ∷ 7 ∷ 1 ∷ 2 ∷ [])
    ∷ (codes "index.html#autotoc_md34", 0 ∷ 7 ∷ 2 ∷ [])
    ∷ (codes "index.html#autotoc_md36", 0 ∷ 8 ∷ [])
    ∷ (codes "index.html#autotoc_md37", 0 ∷ 8 ∷ 0 ∷ [])
    ∷ (codes "index.html#autotoc_md38", 0 ∷ 8 ∷ 1 ∷ [])
    ∷ (codes "index.html#autotoc_md39", 0 ∷ 8 ∷ 2 ∷ [])
    ∷ (codes "index.html#autotoc_md4", 0 ∷ 1 ∷ [])
    ∷ (codes "index.html#autotoc_md41", 0 ∷ 9 ∷ [])
    ∷ (codes "index.html#autotoc_md43", 0 ∷ 10 ∷ [])
    ∷ (codes "index.html#autotoc_md45", 0 ∷ 11 ∷ [])
    ∷ (codes "index.html#autotoc_md6", 0 ∷ 2 ∷ [])
    ∷ (codes "index.html#autotoc_md8", 0 ∷ 3 ∷ [])
    ∷ (codes "main_8c.html", 3 ∷ 0 ∷ 4 ∷ 3 ∷ [])
    ∷ (codes "main_8c.html#a01cf24de976d877b6f135e2d35d90f51", 3 ∷ 0 ∷ 4 ∷ 3 ∷ 14 ∷ [])
    ∷ (codes "main_8c.html#a0ddf1224851353fc92bfbff6f499fa97", 3 ∷ 0 ∷ 4 ∷ 3 ∷ 1 ∷ [])
    ∷ (codes "main_8c.html#a26990af04eb41db8df6dc7543fccf056", 3 ∷ 0 ∷ 4 ∷ 3 ∷ 9 ∷ [])
    ∷ (codes "main_8c.html#a369536ebfe385731562c0b55dd6f3a7c", 3 ∷ 0 ∷ 4 ∷ 3 ∷ 15 ∷ [])
    ∷ (codes "main_8c.html#a83623ca478b30e6d475350e5e2c581b4", 3 ∷ 0 ∷ 4 ∷ 3 ∷ 4 ∷ [])
    ∷ (codes "main_8c.html#a876bcf2d5778188f1321158be339b6bf", 3 ∷ 0 ∷ 4 ∷ 3 ∷ 7 ∷ [])
    ∷ (codes "main_8c.html#a89c82ab5569e49681a0d398b9b2f6656", 3 ∷ 0 ∷ 4 ∷ 3 ∷ 2 ∷ [])
    ∷ (codes "main_8c.html#a8bfc90b3fb9344e9caafec953baacc0b", 3 ∷ 0 ∷ 4 ∷ 3 ∷ 0 ∷ [])
    ∷ (codes "main_8c.html#a923a94cc456bedbec2965524a075feaa", 3 ∷ 0 ∷ 4 ∷ 3 ∷ 13 ∷ [])
    ∷ (codes "main_8c.html#ab9d07953861c31bbe15f4935bc931c80", 3 ∷ 0 ∷ 4 ∷ 3 ∷ 10 ∷ [])
    ∷ (codes "main_8c.html#abf97db69aa75ebc4a0397738d5aa2269", 3 ∷ 0 ∷ 4 ∷ 3 ∷ 11 ∷ [])
    ∷ (codes "main_8c.html#ade9debd3d5409a3452db3a95b18e003d", 3 ∷ 0 ∷ 4 ∷ 3 ∷ 8 ∷ [])
    ∷ (codes "main_8c.html#ae4eea2bfe19420e4794be4e24d387fc6", 3 ∷ 0 ∷ 4 ∷ 3 ∷ 12 ∷ [])
    ∷ (codes "main_8c.html#aecb0d549b1e93611e57e5301ec351230", 3 ∷ 0 ∷ 4 ∷ 3 ∷ 3 ∷ [])
    ∷ (codes "main_8c.html#af20558c3d817c972e0fd6776eaf23944", 3 ∷ 0 ∷ 4 ∷ 3 ∷ 6 ∷ [])
    ∷ (codes "main_8c.html#af43f04aeebb051be94d18a8d532c19d6", 3 ∷ 0 ∷ 4 ∷ 3 ∷ 5 ∷ [])
    ∷ (codes "main_8c.html#afea0978202fb1c260c798cd69bbd3aea", 3 ∷ 0 ∷ 4 ∷ 3 ∷ 16 ∷ [])
    ∷ (codes "main_8c_source.html", 3 ∷ 0 ∷ 4 ∷ 3 ∷ [])
    ∷ (codes "mem__mgmt_8c.html", 3 ∷ 0 ∷ 6 ∷ 3 ∷ [])
    ∷ (codes "mem__mgmt_8c.html#a6aa0eb9159c3e741f24c4f99f5f8d2e9", 3 ∷ 0 ∷ 6 ∷ 3 ∷ 1 ∷ [])
    ∷ (codes "mem__mgmt_8c.html#ac297e9ff7706816d07534662367da1f2", 3 ∷ 0 ∷ 6 ∷ 3 ∷ 0 ∷ [])
    ∷ (codes "mem__mgmt_8c_source.html", 3 ∷ 0 ∷ 6 ∷ 3 ∷ [])
    ∷ (codes "mem__mgmt_8h.html", 3 ∷ 0 ∷ 3 ∷ 13 ∷ [])
    ∷ (codes "mem__mgmt_8h.html#a6aa0eb9159c3e741f24c4f99f5f8d2e9", 3 ∷ 0 ∷ 3 ∷ 13 ∷ 1 ∷ [])
    ∷ (codes "mem__mgmt_8h.html#ac297e9ff7706816d07534662367da1f2", 3 ∷ 0 ∷ 3 ∷ 13 ∷ 0 ∷ [])
    ∷ (codes "mem__mgmt_8h_source.html", 3 ∷ 0 ∷ 3 ∷ 13 ∷ [])
    ∷ (codes "pipeline_8c.html", 3 ∷ 0 ∷ 6 ∷ 4 ∷ [])
    ∷ (codes "pipeline_8c.html#a1445706f4fc5e4a80660461a9b4f4a14", 3 ∷ 0 ∷ 6 ∷ 4 ∷ 4 ∷ [])
    ∷ (codes "pipeline_8c.html#a2222722eea409d44f8babc5fdea6d82d", 3 ∷ 0 ∷ 6 ∷ 4 ∷ 2 ∷ [])
    ∷ (codes "pipeline_8c.html#a38bf95e7e079b513f9b06d161b67ae6b", 3 ∷ 0 ∷ 6 ∷ 4 ∷ 3 ∷ [])
    ∷ (codes "pipeline_8c.html#a3da04b3b1bbb010a87ef597bfb550158", 3 ∷ 0 ∷ 6 ∷ 4 ∷ 5 ∷ [])
    ∷ (codes "pipeline_8c.html#a5f776614f55b0daf83772ef2e8b2bba7", 3 ∷ 0 ∷ 6 ∷ 4 ∷ 0 ∷ [])
    ∷ (codes "pipeline_8c.html#aac9708704f42e0c9395ff7e78bed80a2", 3 ∷ 0 ∷ 6 ∷ 4 ∷ 1 ∷ [])
    ∷ (codes "pipeline_8c_source.html", 3 ∷ 0 ∷ 6 ∷ 4 ∷ [])
    ∷ (codes "pipeline_8h.html", 3 ∷ 0 ∷ 3 ∷ 14 ∷ [])
    ∷ (codes "pipeline_8h.html#a05fd9421a388023726ef82f805041bd9", 3 ∷ 0 ∷ 3 ∷ 14 ∷ 3 ∷ [])
    ∷ (codes "pipeline_8h.html#a1445706f4fc5e4a80660461a9b4f4a14", 3 ∷ 0 ∷ 3 ∷ 14 ∷ 4 ∷ [])
    ∷ (codes "pipeline_8h.html#ace197dc8b9316c5383515a236f132ebc", 3 ∷ 0 ∷ 3 ∷ 14 ∷ 2 ∷ [])
    ∷ (codes "pipeline_8h_source.html", 3 ∷ 0 ∷ 3 ∷ 14 ∷ [])
    ∷ (codes "queues_8c.html", 3 ∷ 0 ∷ 5 ∷ 0 ∷ [])
    ∷ (codes "queues_8c_source.html", 3 ∷ 0 ∷ 5 ∷ 0 ∷ [])
    ∷ (codes "queues_8h.html", 3 ∷ 0 ∷ 3 ∷ 15 ∷ [])
    ∷ (codes "queues_8h_source.html", 3 ∷ 0 ∷ 3 ∷ 15 ∷ [])
    ∷ (codes "structbootloader__ctx__t.html", 2 ∷ 0 ∷ 0 ∷ [])
    ∷ (codes "structbootloader__ctx__t.html#a03d46543af026b15390bd4da9a17cf81", 2 ∷ 0 ∷ 0 ∷ 1 ∷ [])
    ∷ (codes "structbootloader__ctx__t.html#a317eb93e5cecce4075d45141371a2986", 2 ∷ 0 ∷ 0 ∷ 8 ∷ [])
    ∷ (codes "structbootloader__ctx__t.html#a31db2eb4fb9994069bf98eb9d666de84", 2 ∷ 0 ∷ 0 ∷ 9 ∷ [])
    ∷ (codes "structbootloader__ctx__t.html#a567f659141dcc78362c644f179b44031", 2 ∷ 0 ∷ 0 ∷ 5 ∷ [])
    ∷ (codes "structbootloader__ctx__t.html#a617109e9320ea933f089fa0036594740", 2 ∷ 0 ∷ 0 ∷ 7 ∷ [])
    ∷ (codes "structbootloader__ctx__t.html#a683fdc3ef3d3f5e4b5254b8bcdc689d1", 2 ∷ 0 ∷ 0 ∷ 2 ∷ [])
    ∷ (codes "structbootloader__ctx__t.html#a7165bf3a8f64c6b114acf89235c34072", 2 ∷ 0 ∷ 0 ∷ 4 ∷ [])
    ∷ (codes "structbootloader__ctx__t.html#a7d548f84aafc48f061d178c2f0aea459", 2 ∷ 0 ∷ 0 ∷ 10 ∷ [])
    ∷ (codes "structbootloader__ctx__t.html#aaea4b82300bd4a37153ed42cf3aee72c", 2 ∷ 0 ∷ 0 ∷ 11 ∷ [])
    ∷ (codes "structbootloader__ctx__t.html#ab3ad550e6709006fef712a2d66742734", 2 ∷ 0 ∷ 0 ∷ 3 ∷ [])
    ∷ (codes "structbootloader__ctx__t.html#aca737322fad94515cf9c3ec97c349db5", 2 ∷ 0 ∷ 0 ∷ 13 ∷ [])
    ∷ (codes "structbootloader__ctx__t.html#adb9a8b294da0114736fe4a128208e99b", 2 ∷ 0 ∷ 0 ∷ 12 ∷ [])
    ∷ (codes "structbootloader__ctx__t.html#af0261d44089593a58556b075143c1c91", 2 ∷ 0 ∷ 0 ∷ 6 ∷ [])
    ∷ (codes "structbootloader__ctx__t.html#af4e194b66213116077c4061701d4b861", 2 ∷ 0 ∷ 0 ∷ 0 ∷ [])
    ∷ (codes "structcmd__args__t.html", 2 ∷ 0 ∷ 1 ∷ [])
    ∷ (codes "structcmd__args__t.html#a3596e1cec1382aaba703712d9ebf8b8f", 2 ∷ 0 ∷ 1 ∷ 5 ∷ [])
    ∷ (codes "structcmd__args__t.html#a8df42806135247aa198b27f7872d697a", 2 ∷ 0 ∷ 1 ∷ 4 ∷ [])
    ∷ (codes "structcmd__args__t.html#aa1def29bf92ee1010d96d965286d24b0", 2 ∷ 0 ∷ 1 ∷ 0 ∷ [])
    ∷ (codes "structcmd__args__t.html#abae7143aa7e4860c890563d84a467e2f", 2 ∷ 0 ∷ 1 ∷ 2 ∷ [])
    ∷ (codes "structcmd__args__t.html#abf1cc975e29342a0e48c8872b8c8612f", 2 ∷ 0 ∷ 1 ∷ 7 ∷ [])
    ∷ (codes "structcmd__args__t.html#ad12a24fd1d9633c6153bd6e3e40e0ca4", 2 ∷ 0 ∷ 1 ∷ 1 ∷ [])
    ∷ (codes "structcmd__args__t.html#ae90bbf98bf21e8192f5de83e4d06c0c8", 2 ∷ 0 ∷ 1 ∷ 3 ∷ [])
    ∷ (codes "structcmd__args__t.html#af7e1abe6148e507a81f348e4a9a082ba", 2 ∷ 0 ∷ 1 ∷ 6 ∷ [])
    ∷ (codes "structcomm__packet__t.html", 2 ∷ 0 ∷ 2 ∷ [])
    ∷ (codes "structcomm__packet__t.html#a041586b3fa7f84c5bffd113a2a0c71e4", 2 ∷ 0 ∷ 2 ∷ 1 ∷ [])
    ∷ (codes "structcomm__packet__t.html#a44121be9a839a7d20db30b13757f0d58", 2 ∷ 0 ∷ 2 ∷ 2 ∷ [])
    ∷ (codes "structcomm__packet__t.html#aee86530fbca83ed87f0558205381d758", 2 ∷ 0 ∷ 2 ∷ 0 ∷ [])
    ∷ (codes "structcond__t.html", 1 ∷ 6 ∷ 2 ∷ [])
    ∷ (codes "structdrv__serial__t.html", 1 ∷ 2 ∷ 0 ∷ [])
    ∷ (codes "structdrv__tcp__t.html", 1 ∷ 3 ∷ 0 ∷ [])
    ∷ (codes "structdrv__udp__t.html", 1 ∷ 4 ∷ 0 ∷ [])
    ∷ (codes "structdrv__udp__t.html#aa1ac1897da4f62ebcd024b62cf6b91e0", 1 ∷ 4 ∷ 0 ∷ 0 ∷ [])
    ∷ (codes "structfileio__t.html", 1 ∷ 1 ∷ 0 ∷ [])
    ∷ (codes "structfsm.html", 2 ∷ 0 ∷ 8 ∷ [])
    ∷ (codes "structfsm.html#a00cab20b7dc0b4a7d29afa1ea3085e89", 2 ∷ 0 ∷ 8 ∷ 6 ∷ [])
    ∷ (codes "structfsm.html#a027c82c9960b68d6dfa42d913776f21f", 2 ∷ 0 ∷ 8 ∷ 0 ∷ [])
    ∷ (codes "structfsm.html#a48e7b8791721ba6d771067fe9da3b552", 2 ∷ 0 ∷ 8 ∷ 1 ∷ [])
    ∷ (codes "structfsm.html#a5514b78d86281377ed2390c5e57b8e57", 2 ∷ 0 ∷ 8 ∷ 3 ∷ [])
    ∷ (codes "structfsm.html#a74827533757aba73e3fb84e3e7525bda", 2 ∷ 0 ∷ 8 ∷ 2 ∷ [])
    ∷ (codes "structfsm.html#a844c5da59dd596ea9aa43d1950b680ad", 2 ∷ 0 ∷ 8 ∷ 4 ∷ [])
    ∷ (codes "structfsm.html#aac387650ce67d798b0e039570238c042", 2 ∷ 0 ∷ 8 ∷ 5 ∷ [])
    ∷ []

abbrev pub lower_part : Table
lower_part =
    (codes "structfsm__event.html", 2 ∷ 0 ∷ 9 ∷ [])
    ∷ (codes "structfsm__event.html#abcd1f5f247e07b4b613b62643ff48706", 2 ∷ 0 ∷ 9 ∷ 2 ∷ [])
    ∷ (codes "structfsm__event.html#adfbc42b1f5fb5d90f7d483fb5fe6b444", 2 ∷ 0 ∷ 9 ∷ 0 ∷ [])
    ∷ (codes "structfsm__event.html#af44b54af19f40efcd46c6420301be7b3", 2 ∷ 0 ∷ 9 ∷ 1 ∷ [])
    ∷ (codes "structfsm__state.html", 2 ∷ 0 ∷ 10 ∷ [])
    ∷ (codes "structfsm__state.html#a67473e03dc222ca80acb8f4eccfd5070", 2 ∷ 0 ∷ 10 ∷ 3 ∷ [])
    ∷ (codes "structfsm__state.html#a7c0deb4e2006205bfe7b8443df613901", 2 ∷ 0 ∷ 10 ∷ 1 ∷ [])
    ∷ (codes "structfsm__state.html#ad27492c882f5a46135c344fc1d3e5cd4", 2 ∷ 0 ∷ 10 ∷ 2 ∷ [])
    ∷ (codes "structfsm__state.html#ae60477f25efa09acd000ca858c877cab", 2 ∷ 0 ∷ 10 ∷ 0 ∷ [])
    ∷ (codes "structfsm__transition__t.html", 2 ∷ 0 ∷ 11 ∷ [])
    ∷ (codes "structfsm__transition__t.html#a17a773214b71a798d83b0caeee2c42aa", 2 ∷ 0 ∷ 11 ∷ 1 ∷ [])
    ∷ (codes "structfsm__transition__t.html#a5826bce8d0a3ed79179a20ad3f756242", 2 ∷ 0 ∷ 11 ∷ 0 ∷ [])
    ∷ (codes "structfsm__transition__t.html#a749933a00c219724aa262d691aca0b18", 2 ∷ 0 ∷ 11 ∷ 3 ∷ [])
    ∷ (codes "structfsm__transition__t.html#a9aab1d86297e63f6d2a27d0cb57dcf41", 2 ∷ 0 ∷ 11 ∷ 2 ∷ [])
    ∷ (codes "structhex__record__t.html", 2 ∷ 0 ∷ 12 ∷ [])
    ∷ (codes "structhex__record__t.html#a00896e48599e67ba3579b46234e6fe32", 2 ∷ 0 ∷ 12 ∷ 4 ∷ [])
    ∷ (codes "structhex__record__t.html#a69134d306ff734458eaa7fcb3d761a64", 2 ∷ 0 ∷ 12 ∷ 2 ∷ [])
    ∷ (codes "structhex__record__t.html#a83f2680cdeb941a400125163c6e62c24", 2 ∷ 0 ∷ 12 ∷ 0 ∷ [])
    ∷ (codes "structhex__record__t.html#aa562d30a3f784ba3f28f4513b8e10740", 2 ∷ 0 ∷ 12 ∷ 1 ∷ [])
    ∷ (codes "structhex__record__t.html#af2867dd42209cd570bd46f1ce438a7c1", 2 ∷ 0 ∷ 12 ∷ 3 ∷ [])
    ∷ (codes "structmem__pool__t.html", 2 ∷ 0 ∷ 13 ∷ [])
    ∷ (codes "structmem__pool__t.html#a17556da1cf7cfd8f117671eb28fcdd28", 2 ∷ 0 ∷ 13 ∷ 1 ∷ [])
    ∷ (codes "structmem__pool__t.html#ae25b107e7388754be6c6b3f6440d1e14", 2 ∷ 0 ∷ 13 ∷ 0 ∷ [])
    ∷ (codes "structmutex__t.html", 1 ∷ 6 ∷ 1 ∷ [])
    ∷ (codes "structpipeline__builder__t.html", 2 ∷ 0 ∷ 15 ∷ [])
    ∷ (
      codes "structpipeline__builder__t.html#a1768eb50195945bb486cb4054f2d9db4",
      2 ∷ 0 ∷ 15 ∷ 1 ∷ [],
    )
    ∷ (
      codes "structpipeline__builder__t.html#abbb9763555a46215eed2ff6ea37da58b",
      2 ∷ 0 ∷ 15 ∷ 0 ∷ [],
    )
    ∷ (
      codes "structpipeline__builder__t.html#ace727223b21851566e50eda5602d6195",
      2 ∷ 0 ∷ 15 ∷ 2 ∷ [],
    )
    ∷ (codes "structqueue__node.html", 1 ∷ 5 ∷ 0 ∷ [])
    ∷ (codes "structqueue__node.html#a565df498beea7adf6a5ff3a64ada8f78", 1 ∷ 5 ∷ 0 ∷ 1 ∷ [])
    ∷ (codes "structqueue__node.html#ab8fdb834c67ba90cfebd007a29b9afbe", 1 ∷ 5 ∷ 0 ∷ 0 ∷ [])
    ∷ (codes "structqueue__t.html", 1 ∷ 5 ∷ 1 ∷ [])
    ∷ (codes "structqueue__t.html#a07c58d78802b8de0f315e68b450848fc", 1 ∷ 5 ∷ 1 ∷ 0 ∷ [])
    ∷ (codes "structqueue__t.html#a2ca91e16457c57534ddd9a19534a1159", 1 ∷ 5 ∷ 1 ∷ 4 ∷ [])
    ∷ (codes "structqueue__t.html#a513acc727c361e40c2158eb8596ab5ac", 1 ∷ 5 ∷ 1 ∷ 1 ∷ [])
    ∷ (codes "structqueue__t.html#a83a13b888f9d4ef127d706559818b779", 1 ∷ 5 ∷ 1 ∷ 3 ∷ [])
    ∷ (codes "structqueue__t.html#ac2b1ea1c207b2734e6ac4df55e2d4943", 1 ∷ 5 ∷ 1 ∷ 2 ∷ [])
    ∷ (codes "structsector__pipeline__t.html", 2 ∷ 0 ∷ 18 ∷ [])
    ∷ (
      codes "structsector__pipeline__t.html#a4e6c3e5b6466903ba203df04a6684fa7",
      2 ∷ 0 ∷ 18 ∷ 3 ∷ [],
    )
    ∷ (
      codes "structsector__pipeline__t.html#a72fcd32882926a3f1fa6af5afb2627cc",
      2 ∷ 0 ∷ 18 ∷ 2 ∷ [],
    )
    ∷ (
      codes "structsector__pipeline__t.html#ab425afc65b4fcf06f8ba5e17fe0e8aad",
      2 ∷ 0 ∷ 18 ∷ 0 ∷ [],
    )
    ∷ (
      codes "structsector__pipeline__t.html#ad93febf9833c676bd2c7c3031b595a65",
      2 ∷ 0 ∷ 18 ∷ 1 ∷ [],
    )
    ∷ (codes "structsliding__window__t.html", 1 ∷ 0 ∷ 0 ∷ [])
    ∷ (codes "structsliding__window__t.html#a34ed883ef0ef36d74b33f595d80133ec", 1 ∷ 0 ∷ 0 ∷ 1 ∷ [])
    ∷ (codes "structsliding__window__t.html#a5143867fb421ae9e00520abc6775afc3", 1 ∷ 0 ∷ 0 ∷ 2 ∷ [])
    ∷ (codes "structsliding__window__t.html#a9e4e9697c424c2d8a9e23329ee28a80d", 1 ∷ 0 ∷ 0 ∷ 0 ∷ [])
    ∷ (codes "structsliding__window__t.html#af54664ab1dcb8c2d79043e31a0d159d8", 1 ∷ 0 ∷ 0 ∷ 3 ∷ [])
    ∷ (codes "structthread__t.html", 1 ∷ 6 ∷ 0 ∷ [])
    ∷ (codes "threads_8c.html", 3 ∷ 0 ∷ 5 ∷ 1 ∷ [])
    ∷ (codes "threads_8c_source.html", 3 ∷ 0 ∷ 5 ∷ 1 ∷ [])
    ∷ (codes "threads_8h.html", 3 ∷ 0 ∷ 3 ∷ 16 ∷ [])
    ∷ (codes "threads_8h_source.html", 3 ∷ 0 ∷ 3 ∷ 16 ∷ [])
    ∷ (codes "topics.html", 1 ∷ [])
    ∷ (codes "transport__layer_8c.html", 3 ∷ 0 ∷ 0 ∷ 1 ∷ [])
    ∷ (codes "transport__layer_8c.html#a08a585bcdbbcfaf406679efae2636686", 3 ∷ 0 ∷ 0 ∷ 1 ∷ 13 ∷ [])
    ∷ (codes "transport__layer_8c.html#a114174d6b50f71ec03e33d3c8ac8d24c", 3 ∷ 0 ∷ 0 ∷ 1 ∷ 18 ∷ [])
    ∷ (codes "transport__layer_8c.html#a140861b7c88cfb32027397d17d28314e", 3 ∷ 0 ∷ 0 ∷ 1 ∷ 2 ∷ [])
    ∷ (codes "transport__layer_8c.html#a22378c5690ce0febe95d73fa58e8e6d3", 3 ∷ 0 ∷ 0 ∷ 1 ∷ 9 ∷ [])
    ∷ (codes "transport__layer_8c.html#a60d1feb583ac5dcdfb478310321b4a21", 3 ∷ 0 ∷ 0 ∷ 1 ∷ 12 ∷ [])
    ∷ (codes "transport__layer_8c.html#a697da9dea00b980c335ba985dae1ff3b", 3 ∷ 0 ∷ 0 ∷ 1 ∷ 14 ∷ [])
    ∷ (codes "transport__layer_8c.html#a7539beba19d140909582cec49284843a", 3 ∷ 0 ∷ 0 ∷ 1 ∷ 8 ∷ [])
    ∷ (codes "transport__layer_8c.html#a988968c6b1632f9d4f6495ecee2637af", 3 ∷ 0 ∷ 0 ∷ 1 ∷ 16 ∷ [])
    ∷ (codes "transport__layer_8c.html#a9ce595b3296a1dd2cfd6e8bf3f9360d1", 3 ∷ 0 ∷ 0 ∷ 1 ∷ 17 ∷ [])
    ∷ (codes "transport__layer_8c.html#aa95018de4ee1f2d120f67e4fff33b2d2", 3 ∷ 0 ∷ 0 ∷ 1 ∷ 11 ∷ [])
    ∷ (codes "transport__layer_8c.html#aaf76ee7f18e98d34ee98f1dcae9c24a4", 3 ∷ 0 ∷ 0 ∷ 1 ∷ 15 ∷ [])
    ∷ (codes "transport__layer_8c.html#ac1d4fba2a884ae382849ae0637033332", 3 ∷ 0 ∷ 0 ∷ 1 ∷ 1 ∷ [])
    ∷ (codes "transport__layer_8c.html#ac665907fb3bab97775c7da2c9a6e2fc1", 3 ∷ 0 ∷ 0 ∷ 1 ∷ 0 ∷ [])
    ∷ (codes "transport__layer_8c.html#ac91d76e286d0d3ace1128d7d63042713", 3 ∷ 0 ∷ 0 ∷ 1 ∷ 10 ∷ [])
    ∷ (codes "transport__layer_8c_source.html", 3 ∷ 0 ∷ 0 ∷ 1 ∷ [])
    ∷ (codes "transport__layer_8h.html", 3 ∷ 0 ∷ 3 ∷ 17 ∷ [])
    ∷ (codes "transport__layer_8h_source.html", 3 ∷ 0 ∷ 3 ∷ 17 ∷ [])
    ∷ []

abbrev pub navtreeindex1 : Table
navtreeindex1 = upper_part ++ lower_part
